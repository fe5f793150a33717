-- ===== src/FileWriter/Complete/Kept.antt =====
-- What the readings from Redis leave of a scan, and what holds of all scans that are stored
-- (file_writer/file_writer/file_writer_manager.py).
use bec.Prelude.{
  ℕ, String, Option, none, some, Bool, true, false, List, [], ◌∷◌, ◌==◌, ◌≡◌, refl, ◌∙◌, subst,
  nat_eq, option_eq, string_eq, if◌then◌else◌, All, Bool-cases, inl, inr,
}
use bec.Prelude.Dict.{Dict, lookup, insert, erase}
use bec.FileWriter.Storage.{
  ScanStorage, AsyncMessage, Async, take_columns, process_async_data, update_async_data,
  take_baseline,
}

module _ {V : Type 0} where
  -- What the readings of Redis leave as it is.
  abbrev pub kept : ScanStorage V → Bool × Bool × Option ℕ × Dict ℕ V
  kept s = (s.scan_finished, s.enforce_sync, s.num_points, s.scan_segments)

  take_columns-kept :
      (device : String) (s : ScanStorage V) (o : Option (Dict String (Async V) × Bool))
      → kept (take_columns device s o).0 ≡ kept s
  take_columns-kept device s none = refl
  take_columns-kept device s (some r) = refl

  process_async_data-kept :
      (device : String) (msgs : List (AsyncMessage V)) (s : ScanStorage V)
      → kept (process_async_data device msgs s).0 ≡ kept s
  unfolding process_async_data
  process_async_data-kept device [] s = refl
  process_async_data-kept device (m ∷ []) s = refl
  process_async_data-kept device (m ∷ m' ∷ msgs) s = take_columns-kept device s _

  pub update_async_data-kept :
      (l : List (String × List (AsyncMessage V))) (s : ScanStorage V)
      → kept (update_async_data l s).0 ≡ kept s
  unfolding update_async_data
  update_async_data-kept [] s = refl
  update_async_data-kept ((device, msgs) ∷ l) s =
      let r = process_async_data device msgs s in
      elim (Bool-cases r.1) [
        | inl e ↦ rw e (update_async_data-kept l r.0 ∙ process_async_data-kept device msgs s)
        | inr e ↦ rw e (process_async_data-kept device msgs s)
      ]

  pub take_baseline-kept :
      (d : Dict String V) (o : Option (Dict String V)) (s : ScanStorage V)
      → kept (take_baseline d o s) ≡ kept s
  take_baseline-kept [] none s = refl
  take_baseline-kept [] (some b) s = refl
  take_baseline-kept (_ ∷ _) o s = refl

  pub all_insert :
      (P : ScanStorage V → Type 0) (i : Option String) (s : ScanStorage V)
      (d : Dict (Option String) (ScanStorage V))
      → P s
      → All (λ x. P x.1) d
      → All (λ x. P x.1) (insert i s d)
  unfolding insert
  all_insert P i s [] p h = (p, tt)
  all_insert P i s ((j, t) ∷ d) p h = elim (Bool-cases (j == i)) [
    | inl e ↦ rw e (p, h.1)
    | inr e ↦ rw e (h.0, all_insert P i s d p h.1)
  ]

  pub all_erase :
      (P : ScanStorage V → Type 0) (i : Option String) (d : Dict (Option String) (ScanStorage V))
      → All (λ x. P x.1) d
      → All (λ x. P x.1) (erase i d)
  unfolding erase
  all_erase P i [] h = tt
  all_erase P i ((j, t) ∷ d) h = elim (Bool-cases (j == i)) [
    | inl e ↦ rw e (all_erase P i d h.1)
    | inr e ↦ rw e (h.0, all_erase P i d h.1)
  ]

  pub all_lookup :
      (P : ScanStorage V → Type 0) (i : Option String) (s : ScanStorage V)
      (d : Dict (Option String) (ScanStorage V))
      → All (λ x. P x.1) d
      → lookup i d ≡ some s
      → P s
  unfolding lookup
  all_lookup P i s [] h e = cc
  all_lookup P i s ((j, t) ∷ d) h e =
      elim (j == i) as (λ b. (if b then some t else lookup i d) ≡ some s → P s) [
        | true ↦ λ q. subst P (cc q) h.0
        | false ↦ λ q. all_lookup P i s d h.1 q
      ]
        e
