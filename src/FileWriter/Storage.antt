-- ===== src/FileWriter/Storage.antt =====
-- ScanStorage, and what FileWriterManager reads from Redis into it
-- (file_writer/file_writer/file_writer_manager.py). np.concatenate is recorded by its argument.
use bec.Prelude.{
  ℕ, String, Option, none, some, Bool, true, false, ◌&&◌, List, [], ◌∷◌, ◌==◌, string_eq, option_eq,
  nat_eq, if◌then◌else◌, length, map,
}
use bec.Prelude.Dict.{Dict, lookup, insert}

-- What is stored of one signal of an asynchronous device: a value, a list, or a concatenation.
pub data Async (V : Type 0) : Type 0 where
  value : V → Async V
  appended extended : List V → Async V

pub record FileReference : Type 0 where
  pub path : ℕ
  pub done : Bool
  pub successful : Bool

pub record ScanStorage (V : Type 0) : Type 0 where
  pub scan_number : Option ℕ
  pub scan_id : Option String
  pub scan_segments : Dict ℕ V
  pub scan_finished : Bool
  pub num_points : Option ℕ
  pub baseline : Dict String V
  pub async_data : Dict String (Dict String (Async V))
  pub metadata : Dict String V
  pub file_references : Dict String FileReference
  pub start_time : Option ℕ
  pub end_time : Option ℕ
  pub enforce_sync : Bool

pub record AsyncMessage (V : Type 0) : Type 0 where
  pub async_update : Option String
  pub signals : Dict String V

-- The surroundings of a call: Redis, the file paths, and whether a write succeeds.
pub record Server (V : Type 0) : Type 0 where
  pub public_scan_baseline : Option String → Option (Dict String V)
  pub public_file : Option String → List (String × FileReference)
  pub device_async_readback : Option String → List (String × List (AsyncMessage V))
  pub compile_full_filename : Option ℕ → ℕ
  pub write : ScanStorage V → Bool

abbrev pub update_all : {A : Type 0} → List (String × A) → Dict String A → Dict String A
update_all [] d = d
update_all ((k, v) ∷ new) d = update_all new (insert k v d)

abbrev pub or_text : Option String → String
or_text none = ""
or_text (some t) = t

abbrev pub or_time : Option ℕ → ℕ → Option ℕ
or_time none t = some t
or_time (some n) t = if n == 0 then some t else some n

module _ {V : Type 0} where
  unfoldable pub new_storage : Option ℕ → Option String → ScanStorage V
  new_storage n i = record {
    scan_number = n;
    scan_id = i;
    scan_segments = [];
    scan_finished = false;
    num_points = none;
    baseline = [];
    async_data = [];
    metadata = [];
    file_references = [];
    start_time = none;
    end_time = none;
    enforce_sync = true;
  }

  unfoldable pub append : ℕ → V → ScanStorage V → ScanStorage V
  unfolding insert
  append point readings s = record s { scan_segments = insert point readings s.scan_segments }

  abbrev pub ready_to_write : ScanStorage V → Bool
  ready_to_write s =
      if s.enforce_sync
      then s.scan_finished && s.num_points == some (length s.scan_segments)
      else s.scan_finished

  abbrev pub take_baseline : Dict String V → Option (Dict String V) → ScanStorage V → ScanStorage V
  take_baseline [] none s = s
  take_baseline [] (some b) s = record s { baseline = b }
  take_baseline (_ ∷ _) o s = s

  unfoldable pub update_baseline_reading : Server V → Option String → ScanStorage V → ScanStorage V
  update_baseline_reading server i s = take_baseline s.baseline (server.public_scan_baseline i) s

  unfoldable pub update_file_references : Server V → Option String → ScanStorage V → ScanStorage V
  unfolding insert
  update_file_references server i s = record s {
    file_references = update_all (server.public_file i) s.file_references;
  }

  -- The first update type that is not empty, where append is the default.
  abbrev pub concat_type : List (AsyncMessage V) → Option String
  concat_type [] = none
  concat_type (m ∷ msgs) = elim (m.async_update) [
    | none ↦ some "append"
    | some t ↦ if t == "" then concat_type msgs else some t
  ]

  -- d[key] of all the data, up to the first that has no such key, and whether all have it.
  abbrev pub column : String → List (Dict String V) → List V × Bool
  column k [] = ([], true)
  column k (d ∷ ds) = elim (lookup k d) [
    | none ↦ ([], false)
    | some v ↦ (v ∷ (column k ds).0, (column k ds).1)
  ]

  -- The loop over the keys, and whether it ends without a KeyError: a list that is appended to stays as
  -- far as it is.
  abbrev pub extend_columns : List (Dict String V) → Dict String V → Dict String (Async V) × Bool
  extend_columns ds [] = ([], true)
  extend_columns ds ((k, _) ∷ keys) =
      let rest = extend_columns ds keys in
      if (column k ds).1 then ((k, extended (column k ds).0) ∷ rest.0, rest.1) else ([], false)

  abbrev pub append_columns : List (Dict String V) → Dict String V → Dict String (Async V) × Bool
  append_columns ds [] = ([], true)
  append_columns ds ((k, _) ∷ keys) =
      let rest = append_columns ds keys in
      if (column k ds).1
      then ((k, appended (column k ds).0) ∷ rest.0, rest.1)
      else ((k, appended (column k ds).0) ∷ [], false)

  abbrev pub replace_columns : Dict String V → Dict String V → Dict String (Async V) × Bool
  replace_columns last [] = ([], true)
  replace_columns last ((k, _) ∷ keys) =
      let rest = replace_columns last keys in
      elim (lookup k last) [ none ↦ ([], false) | some v ↦ ((k, value v) ∷ rest.0, rest.1) ]

  abbrev pub last_of : Dict String V → List (Dict String V) → Dict String V
  last_of d [] = d
  last_of d (e ∷ ds) = last_of e ds

  -- The choice by the update type, with what is stored of a device, none where that does not change.
  abbrev pub concatenated :
      String → Dict String V → List (Dict String V) → Option (Dict String (Async V) × Bool)
  concatenated t d ds =
      if t == "extend"
      then some (extend_columns (d ∷ ds) d)
      else if t == "append"
      then some (append_columns (d ∷ ds) d)
      else if t == "replace"
      then some (replace_columns (last_of d ds) d)
      else none

  abbrev pub values : Dict String V → Dict String (Async V)
  values d = map (λ s. (s.0, value s.1)) d

  abbrev pub take_columns :
      String → ScanStorage V → Option (Dict String (Async V) × Bool) → ScanStorage V × Bool
  take_columns device s none = (s, true)
  take_columns device s (some r) = (record s { async_data = insert device r.0 s.async_data }, r.1)

  -- `_process_async_data` of the messages of a device, one at least, and whether it ends without a
  -- KeyError.
  unfoldable pub process_async_data :
      String → List (AsyncMessage V) → ScanStorage V → ScanStorage V × Bool
  unfolding insert lookup
  process_async_data device [] s = (s, true)
  process_async_data device (m ∷ []) s =
      (record s { async_data = insert device (values m.signals) s.async_data }, true)
  process_async_data device (m ∷ m' ∷ msgs) s =
      let t = or_text (concat_type (m ∷ m' ∷ msgs)) in
      take_columns device s (concatenated t m.signals (map (λ n. n.signals) (m' ∷ msgs)))

  -- The loop of `update_async_data` over the devices.
  unfoldable pub update_async_data :
      List (String × List (AsyncMessage V)) → ScanStorage V → ScanStorage V × Bool
  unfolding process_async_data
  update_async_data [] s = (s, true)
  update_async_data ((device, msgs) ∷ rest) s =
      let r = process_async_data device msgs s in
      let more = update_async_data rest r.0 in if r.1 then more else r
