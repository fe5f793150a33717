-- ===== src/BecLib/Callbacks.antt =====
-- CallbackHandler and CallbackRegister (bec_lib/bec_lib/callback_handler.py). `A` is what a callback
-- is run with. The calls are recorded in their order; what a callback does besides, and an exception
-- in it, which is caught, leave the handler as it is.
pub mod Ids
pub mod Polling
use bec.Prelude.{
  ℕ, zero, suc, String, Option, none, some, Bool, true, false, List, [], ◌∷◌, ◌++◌, ◌==◌, string_eq,
  nat_eq, if◌then◌else◌, length,
}
use bec.Prelude.Deque
use bec.Prelude.Dict.{Dict, lookup, insert, erase, has}

pub data EventType : Type 0 where
  scan_segment scan_status : EventType

-- EventType(s), none is its ValueError.
unfoldable pub event_type : String → Option EventType
event_type s =
    if s == "scan_segment"
    then some scan_segment
    else if s == "scan_status"
    then some scan_status
    else none

abbrev pub value : EventType → String
value scan_segment = "scan_segment"
value scan_status = "scan_status"

-- A callable, by its identity.
abbrev pub Callable : Type 0
Callable = ℕ

abbrev pub max_pending : ℕ
max_pending = 1000

pub record CallbackEntry (A : Type 0) : Type 0 where
  pub id : ℕ
  pub event_type : EventType
  pub func : Callable
  pub sync : Bool
  pub queue : List A

pub record CallbackHandler (A : Type 0) : Type 0 where
  pub callbacks : Dict ℕ (CallbackEntry A)
  pub id_counter : ℕ
  pub calls : List (Callable × A)

pub data Polled (A : Type 0) : Type 0 where
  runtime_error index_error : Polled A
  polled : CallbackEntry A → Callable × A → Polled A

module _ {A : Type 0} where
  unfoldable pub callback_handler : CallbackHandler A
  callback_handler = record { callbacks = []; id_counter = 0; calls = [] }

  -- `CallbackEntry.run`: the entry after it, and the calls that it makes.
  unfoldable pub run_entry : A → CallbackEntry A → CallbackEntry A × List (Callable × A)
  run_entry args c =
      if c.sync
      then (record c { queue = Deque.append max_pending c.queue args }, [])
      else (c, (c.func, args) ∷ [])

  -- `CallbackEntry.poll`
  abbrev pub pop_left : CallbackEntry A → List A → Polled A
  pop_left c [] = index_error
  pop_left c (args ∷ queue) = polled (record c { queue = queue }) (c.func, args)

  unfoldable pub poll_entry : CallbackEntry A → Polled A
  poll_entry c = if c.sync then pop_left c c.queue else runtime_error

  unfoldable pub new_id : CallbackHandler A → ℕ × CallbackHandler A
  new_id h = (suc h.id_counter, record h { id_counter = suc h.id_counter })

  unfoldable pub register :
      String → Callable → Bool → CallbackHandler A → Option (ℕ × CallbackHandler A)
  unfolding event_type new_id
  register type callback sync h = elim (event_type type) [
    | none ↦ none
    | some t ↦
        let (id, h') = new_id h in
        let entry : CallbackEntry A = record {
          id = id;
          event_type = t;
          func = callback;
          sync = sync;
          queue = [];
        } in
        some (id, record h' { callbacks = insert id entry h'.callbacks })
  ]

  -- The ids, where none is -1: a callback that is None is not registered.
  unfoldable pub register_many :
      String
      → List (Option Callable)
      → Bool
      → CallbackHandler A
      → Option (List (Option ℕ) × CallbackHandler A)
  unfolding register
  register_many type [] sync h = some ([], h)
  register_many type (none ∷ cs) sync h = elim (register_many type cs sync h) [
    | none ↦ none
    | some (ids, h') ↦ some (none ∷ ids, h')
  ]
  register_many type (some c ∷ cs) sync h = elim (register type c sync h) [
    | none ↦ none
    | some (id, h') ↦ elim (register_many type cs sync h') [
      | none ↦ none
      | some (ids, h'') ↦ some (some id ∷ ids, h'')
    ]
  ]

  -- The id, and none for -1.
  unfoldable pub remove : ℕ → CallbackHandler A → Option ℕ × CallbackHandler A
  remove id h =
      if has id h.callbacks
      then (some id, record h { callbacks = erase id h.callbacks })
      else (none, h)

  unfoldable pub run_all :
      String → A → Dict ℕ (CallbackEntry A) → Dict ℕ (CallbackEntry A) × List (Callable × A)
  unfolding run_entry
  run_all type args [] = ([], [])
  run_all type args ((id, c) ∷ cs) =
      let (cs', calls) = run_all type args cs in
      if type == value c.event_type
      then (let (c', made) = run_entry args c in ((id, c') ∷ cs', made ++ calls))
      else ((id, c) ∷ cs', calls)

  unfoldable pub run : String → A → CallbackHandler A → CallbackHandler A
  unfolding run_all
  run type args h =
      let (cs, calls) = run_all type args h.callbacks in
      record h { callbacks = cs; calls = h.calls ++ calls }

  -- The loop of poll on one callback, which has as many rounds as events are pending. A poll that
  -- raises would end the whole loop; it is not reached.
  unfoldable pub poll_pending : ℕ → CallbackEntry A → CallbackEntry A × List (Callable × A)
  unfolding poll_entry
  poll_pending zero c = (c, [])
  poll_pending (suc n) c = elim (poll_entry c) [
    | polled c' call ↦ let (c'', calls) = poll_pending n c' in (c'', call ∷ calls)
    | _ ↦ (c, [])
  ]

  unfoldable pub poll_all :
      Dict ℕ (CallbackEntry A) → Dict ℕ (CallbackEntry A) × List (Callable × A)
  unfolding poll_pending
  poll_all [] = ([], [])
  poll_all ((id, c) ∷ cs) =
      let (cs', calls) = poll_all cs in
      if c.sync
      then (let (c', made) = poll_pending (length c.queue) c in ((id, c') ∷ cs', made ++ calls))
      else ((id, c) ∷ cs', calls)

  unfoldable pub poll : CallbackHandler A → CallbackHandler A
  unfolding poll_all
  poll h =
      let (cs, calls) = poll_all h.callbacks in
      record h { callbacks = cs; calls = h.calls ++ calls }

  -- `CallbackRegister.__enter__`: the ids that it has registered.
  unfoldable pub enter :
      String
      → List (Option Callable)
      → Bool
      → CallbackHandler A
      → Option (List ℕ × CallbackHandler A)
  unfolding register
  enter type [] sync h = some ([], h)
  enter type (none ∷ cs) sync h = enter type cs sync h
  enter type (some c ∷ cs) sync h = elim (register type c sync h) [
    | none ↦ none
    | some (id, h') ↦ elim (enter type cs sync h') [
      | none ↦ none
      | some (ids, h'') ↦ some (id ∷ ids, h'')
    ]
  ]

  -- `CallbackRegister.__exit__`
  unfoldable pub exit : List ℕ → CallbackHandler A → CallbackHandler A
  unfolding remove
  exit [] h = h
  exit (id ∷ ids) h = exit ids (remove id h).1
