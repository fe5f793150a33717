-- ===== src/BecLib/Callbacks/Ids.antt =====
-- The ids of callbacks, and CallbackRegister (bec_lib/bec_lib/callback_handler.py).
use bec.Prelude.{
  ℕ, suc, String, ◌≡◌, refl, inl, inr, ◌∙◌, ap, sym, Option, none, some, Bool, false, List, [], ◌∷◌,
  ◌==◌, ◌≤◌, ◌<◌, nat_eq, if◌then◌else◌, arith, All, All-mono, Option-cases, Bool-cases, beq_refl,
}
use bec.Prelude.Dict.{Dict, lookup, insert, erase, has, lookup-insert, IsDict, insert-IsDict}
use bec.BecLib.Callbacks.{
  EventType, event_type, Callable, CallbackEntry, CallbackHandler, new_id, register, remove, enter,
  exit,
}

module _ {A : Type 0} where
  -- Ids are distinct, and none is above the counter.
  pub record IsWellFormed (h : CallbackHandler A) : Type 0 where
    pub dict : IsDict h.callbacks
    pub counted : All (λ e. e.0 ≤ h.id_counter) h.callbacks

  has_above : (n : ℕ) (m : Dict ℕ (CallbackEntry A)) → All (λ e. e.0 < n) m → has n m ≡ false
  unfolding has
  has_above n [] h = refl
  has_above n ((k, c) ∷ m) h = ground (arith, has_above n m h.1)

  All-insert :
      (n k : ℕ) (c : CallbackEntry A) (m : Dict ℕ (CallbackEntry A))
      → k ≤ n
      → All (λ e. e.0 ≤ n) m
      → All (λ e. e.0 ≤ n) (insert k c m)
  unfolding insert
  All-insert n k c [] l h = (l, tt)
  All-insert n k c ((j, d) ∷ m) l h = ground (arith, All-insert n k c m l h.1)

  has-fresh : (h : CallbackHandler A) → IsWellFormed h → has (suc h.id_counter) h.callbacks ≡ false
  has-fresh h w =
      has_above (suc h.id_counter) h.callbacks
        (All-mono _ _ (λ e q. omega arith) h.callbacks w.counted)

  -- What register returns: the next id, and the handler with the entry under it.
  abbrev pub registered : EventType → Callable → Bool → CallbackHandler A → CallbackHandler A
  registered t callback sync h = record {
    callbacks =
        insert (suc h.id_counter)
          (record {
            id = suc h.id_counter;
            event_type = t;
            func = callback;
            sync = sync;
            queue = [];
          })
          h.callbacks;
    id_counter = suc h.id_counter;
    calls = h.calls;
  }

  registered-IsWellFormed :
      (t : EventType) (callback : Callable) (sync : Bool) (h : CallbackHandler A)
      → IsWellFormed h
      → IsWellFormed (registered t callback sync h)
  registered-IsWellFormed t callback sync h w = record {
    dict = insert-IsDict (suc h.id_counter) _ h.callbacks w.dict;
    counted =
        All-insert (suc h.id_counter) (suc h.id_counter) _ h.callbacks (omega arith)
          (All-mono _ _ (λ e q. omega arith) h.callbacks w.counted);
  }

  erase_absent : (k : ℕ) (m : Dict ℕ (CallbackEntry A)) → has k m ≡ false → erase k m ≡ m
  unfolding erase has
  erase_absent k [] h = refl
  erase_absent k ((j, c) ∷ m) h = ground (arith, erase_absent k m)

  erase-insert :
      (k : ℕ) (c : CallbackEntry A) (m : Dict ℕ (CallbackEntry A))
      → has k m ≡ false
      → erase k (insert k c m) ≡ m
  unfolding erase insert has
  erase-insert k c [] h = ground (arith, beq_refl k)
  erase-insert k c ((j, d) ∷ m) h = ground (arith, erase-insert k c m)

  abbrev erase_all : List ℕ → Dict ℕ (CallbackEntry A) → Dict ℕ (CallbackEntry A)
  erase_all [] m = m
  erase_all (id ∷ ids) m = erase_all ids (erase id m)

  erase_comm : (j k : ℕ) (m : Dict ℕ (CallbackEntry A)) → erase j (erase k m) ≡ erase k (erase j m)
  unfolding erase
  erase_comm j k [] = refl
  erase_comm j k ((i, c) ∷ m) = ground (arith, erase_comm j k m)

  erase_all-erase :
      (ids : List ℕ) (k : ℕ) (m : Dict ℕ (CallbackEntry A))
      → erase_all ids (erase k m) ≡ erase k (erase_all ids m)
  erase_all-erase [] k m = refl
  erase_all-erase (id ∷ ids) k m =
      ap (erase_all ids) (erase_comm id k m) ∙ erase_all-erase ids k (erase id m)

  remove-erase : (id : ℕ) (h : CallbackHandler A) → (remove id h).1.callbacks ≡ erase id h.callbacks
  unfolding remove
  remove-erase id h = elim (Bool-cases (has id h.callbacks)) [
    | inl e ↦ rw e
    | inr e ↦ rw e (sym (erase_absent id h.callbacks e))
  ]

  exit-erase_all :
      (ids : List ℕ) (h : CallbackHandler A) → (exit ids h).callbacks ≡ erase_all ids h.callbacks
  unfolding exit
  exit-erase_all [] h = refl
  exit-erase_all (id ∷ ids) h =
      exit-erase_all ids (remove id h).1 ∙ ap (erase_all ids) (remove-erase id h)

  register_lem :
      (type : String) (t : EventType) (c : Callable) (sync : Bool) (h : CallbackHandler A)
      → event_type type ≡ some t
      → register type c sync h ≡ some (suc h.id_counter, registered t c sync h)
  unfolding register new_id
  register_lem type t c sync h et = rw (et, register)

  -- On a well-formed handler, a callback of a known event type is registered under an id that no callback has, and is then found under it, while the
  -- other callbacks stay as they are; the handler stays well formed.
  pub register-IsWellFormed :
      (type : String) (t : EventType) (c : Callable) (sync : Bool) (h : CallbackHandler A)
      → event_type type ≡ some t
      → IsWellFormed h
      → (id : ℕ) × (h' : CallbackHandler A) × (register type c sync h ≡ some (id, h'))
        × (has id h.callbacks ≡ false)
        × ((j : ℕ)
            → lookup j h'.callbacks ≡ (
                if id == j
                then some (record { id = id; event_type = t; func = c; sync = sync; queue = [] })
                else lookup j h.callbacks))
        × IsWellFormed h'
  register-IsWellFormed type t c sync h et w = (
    suc h.id_counter,
    registered t c sync h,
    register_lem type t c sync h et,
    has-fresh h w,
    λ j. lookup-insert (suc h.id_counter) j _ h.callbacks,
    registered-IsWellFormed t c sync h w,
  )

  erase_all-enter :
      (type : String) (t : EventType) (cs : List (Option Callable)) (sync : Bool)
      (h h' : CallbackHandler A) (ids : List ℕ)
      → event_type type ≡ some t
      → IsWellFormed h
      → enter type cs sync h ≡ some (ids, h')
      → erase_all ids h'.callbacks ≡ h.callbacks
  unfolding enter
  erase_all-enter type t [] sync h h' ids et w e = ground arith
  erase_all-enter type t (none ∷ cs) sync h h' ids et w e =
      erase_all-enter type t cs sync h h' ids et w e
  erase_all-enter type t (some c ∷ cs) sync h h' ids et w e =
      let r = register_lem type t c sync h et in
      elim (Option-cases (enter type cs sync (registered t c sync h))) [
        | inl q ↦ ground (arith, r)
        | inr ((js, k), q) ↦
            let back : erase_all (suc h.id_counter ∷ js) k.callbacks ≡ h.callbacks =
              erase_all-erase js (suc h.id_counter) k.callbacks
              ∙ ap (erase (suc h.id_counter)) (
                  erase_all-enter type t cs sync (registered t c sync h) k js et
                    (registered-IsWellFormed t c sync h w) q)
              ∙ erase-insert (suc h.id_counter) _ h.callbacks (has-fresh h w) in
            ground (arith, r, back)
      ]

  -- On a well-formed handler and with a known event type, a `with CallbackRegister(…)` leaves the
  -- callbacks as they were: what its enter has registered, its exit removes, and nothing else.
  pub exit-enter :
      (type : String) (t : EventType) (cs : List (Option Callable)) (sync : Bool)
      (h h' : CallbackHandler A) (ids : List ℕ)
      → event_type type ≡ some t
      → IsWellFormed h
      → enter type cs sync h ≡ some (ids, h')
      → (exit ids h').callbacks ≡ h.callbacks
  exit-enter type t cs sync h h' ids et w e =
      exit-erase_all ids h' ∙ erase_all-enter type t cs sync h h' ids et w e
