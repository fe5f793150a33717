-- ===== src/ScanServer/Scans/Effects.antt =====
-- What a scan (scan_server/scan_server/scans.py) does while its generator runs: it yields
-- instructions, asks Redis and changes its own fields. V is the type of positions and times, floats
-- in the program. What Redis answers to the polls to come is part of the state.
use bec.Prelude.{
  ℕ, zero, suc, String, Option, none, some, Bool, List, [], ◌∷◌, ◌++◌, if◌then◌else◌, string_eq,
}
use bec.Prelude.Dict.{Dict, insert}

-- The values in a message's dictionaries. An object that the scan only passes on is opaque.
pub data Field (V : Type 0) : Type 0 where
  nothing : Field V
  text : String → Field V
  texts : List String → Field V
  number : ℕ → Field V
  flag : Bool → Field V
  value : V → Field V
  priorities : Dict String (List String) → Field V
  positions : List (List V) → List V → Field V
  values : List V → Field V
  opaque : ℕ → Field V
  configuration : Option ℕ → List (List V) → V → Field V
  reading_of : String → ℕ → Field V
  readback : Field V → List String → List V → List V → Field V

-- The device of a message: None, one name, or a list.
pub data Target : Type 0 where
  nowhere : Target
  one : String → Target
  many : List String → Target

-- A DeviceInstructionMessage.
pub record Message (V : Type 0) : Type 0 where
  pub device : Target
  pub action : String
  pub parameter : Dict String (Field V)
  pub metadata : Dict String (Field V)

-- The return value of an RPC: some object, the dict of a status with its RID, or the readings of
-- devices, of each its value.
pub data ReturnValue (V : Type 0) : Type 0 where
  object : ℕ → ReturnValue V
  status_dict : Option String → ReturnValue V
  readings : Dict String V → ReturnValue V

pub record RpcReply (V : Type 0) : Type 0 where
  pub success : Bool
  pub return_val : ReturnValue V

-- A request status or a device status in Redis, with RID and DIID of its metadata.
pub record StatusReply : Type 0 where
  pub rid : Option String
  pub diid : Option ℕ
  pub status : ℕ

pub data Failure : Type 0 where
  device_message_error scan_abortion value_error index_error type_error key_error
        zero_division_error :
      Failure
  limit_error : String → Failure

-- The positions of a scan: the rows of a numpy array, or a Python list of rows after which single
-- values may stand.
pub record Positions (V : Type 0) : Type 0 where
  pub is_array : Bool
  pub rows : List (List V)
  pub scalars : List V

-- The fields of a scan object that change, and what its polls will find: replies, statuses, the
-- readbacks of a motor, and pairs of a completed move and a readback. `sent` has what the generator has yielded, oldest first,
-- none for a None; `uuids` counts the ids drawn.
pub record Request (V : Type 0) : Type 0 where
  pub diid : ℕ
  pub point_id : ℕ
  pub scan_motors : List String
  pub start_pos : List V
  pub positions : Positions V
  pub num_pos : Option ℕ
  pub burst_index : ℕ
  pub uuids : ℕ
  pub rpc_replies : List (Option (RpcReply V))
  pub statuses : List (Option StatusReply)
  pub readbacks : List (Option V)
  pub flyer_polls : List (Bool × Option ℕ)
  pub sent : List (Option (Message V))

-- What a scan object is created with and keeps, and `uuid`, the ids that uuid4 gives it in their
-- order. `caller_kwargs` stands for the keywords that a fly scan passes on.
pub record Settings (V : Type 0) : Type 0 where
  pub scan_name : String
  pub metadata : Dict String (Field V)
  pub caller_args : Dict String (List (Field V))
  pub caller_kwargs : ℕ
  pub readout_priority : Dict String (List String)
  pub exp_time : V
  pub relative : Bool
  pub burst_at_each_point : ℕ
  pub optim_trajectory : Option String
  pub uuid : ℕ → String

-- A generator returns, raises, or waits for an answer that its schedule does not hold.
pub data Outcome (V A : Type 0) : Type 0 where
  returns : A → Request V → Outcome V A
  raises : Failure → Request V → Outcome V A
  waits : Request V → Outcome V A

abbrev pub Run : Type 0 → Type 0 → Type 0
Run V A = Request V → Outcome V A

module _ {V A B : Type 0} where
  abbrev pub bind : Outcome V A → (A → Run V B) → Outcome V B
  bind (returns a s) f = f a s
  bind (raises e s) f = raises e s
  bind (waits s) f = waits s

infixl 5 ◌>>=◌ ◌>>◌
abbrev pub ◌>>=◌ : {V A B : Type 0} → Run V A → (A → Run V B) → Run V B
◌>>=◌ m f s = bind (m s) f

abbrev pub ◌>>◌ : {V B : Type 0} → Run V (Unit {0}) → Run V B → Run V B
m >> k = m >>= λ _. k

module _ {V : Type 0} where
  unfoldable pub pure : {A : Type 0} → A → Run V A
  pure a s = returns a s

  unfoldable pub fail : {A : Type 0} → Failure → Run V A
  fail e s = raises e s

  -- Reads the object, and changes it.
  unfoldable pub self : Run V (Request V)
  self s = returns s s

  unfoldable pub modify : (Request V → Request V) → Run V (Unit {0})
  modify f s = returns tt (f s)

  -- `yield None`
  unfoldable pub yield_none : Run V (Unit {0})
  yield_none s = returns tt (record s { sent = s.sent ++ none ∷ [] })

  unfoldable pub when : Bool → Run V (Unit {0}) → Run V (Unit {0})
  unfolding pure
  when b m = if b then m else pure tt

  -- A run that depends on whether there is a value.
  unfoldable pub or_else : {A B : Type 0} → Option A → Run V B → (A → Run V B) → Run V B
  or_else none m f = m
  or_else (some a) m f = f a

  -- A loop over the members of a list, with their index from i.
  unfoldable pub for_each :
      {A : Type 0} → List A → ℕ → (ℕ → A → Run V (Unit {0})) → Run V (Unit {0})
  unfolding pure
  for_each [] i body = pure tt
  for_each (x ∷ xs) i body = body i x >> for_each xs (suc i) body

  -- A loop over the numbers from i, n of them.
  unfoldable pub for_range : ℕ → ℕ → (ℕ → Run V (Unit {0})) → Run V (Unit {0})
  unfolding pure
  for_range zero i body = pure tt
  for_range (suc n) i body = body i >> for_range n (suc i) body

-- {**d, **d'}
unfoldable pub merge : {V : Type 0} → Dict String V → Dict String V → Dict String V
merge d [] = d
merge d ((k, v) ∷ d') = merge (insert k v d) d'
