-- ===== src/BecLib/Callbacks/Polling.antt =====
-- Synchronous callbacks, which run when they are polled (bec_lib/bec_lib/callback_handler.py).
use bec.Prelude.{
  ℕ, zero, suc, String, none, ◌==◌, false, ◌≡◌, refl, inl, inr, ◌∙◌, ap, sym, true, ◌+◌, ◌-◌, List,
  [], ◌∷◌, ◌++◌, ◌≤◌, nat_eq, string_eq, if◌then◌else◌, arith, length, map, drop, append-nil,
  append_assoc, Bool-cases, length-append, length-drop,
}
use bec.Prelude.Deque.{append}
use bec.Prelude.Dict.{Dict}
use bec.BecLib.Callbacks.{
  EventType, value, Callable, CallbackEntry, CallbackHandler, max_pending, run_entry, run_all, run,
  event_type, poll_entry, poll_pending, poll_all, poll,
}

value-event_type :
    (t : EventType) (type : String) → event_type type ≡ none → (type == value t) ≡ false
unfolding event_type
value-event_type EventType.scan_segment type e = ground arith
value-event_type EventType.scan_status type e = ground arith

module _ {A : Type 0} where
  drop_nil : (n : ℕ) → drop {A = A} n [] ≡ []
  drop_nil zero = refl
  drop_nil (suc n) = refl

  drop-drop : (m n : ℕ) (xs : List A) → drop m (drop n xs) ≡ drop (n + m) xs
  drop-drop m zero xs = ap (λ k. drop k xs) (omega arith)
  drop-drop zero (suc n) [] = sym (drop_nil (suc n + 0))
  drop-drop (suc m) (suc n) [] = sym (drop_nil (suc n + suc m))
  drop-drop m (suc n) (x ∷ xs) =
      let e : suc (n + m) ≡ suc n + m = omega arith in
      drop-drop m n xs ∙ ap (λ k. drop k (x ∷ xs)) e

  drop-append : (n : ℕ) (xs ys : List A) → n ≤ length xs → drop n (xs ++ ys) ≡ drop n xs ++ ys
  drop-append zero xs ys l = refl
  drop-append (suc n) [] ys l = elim l [ ]
  drop-append (suc n) (x ∷ xs) ys l = drop-append n xs ys (omega arith)

  -- The last n elements.
  abbrev pub last_of : ℕ → List A → List A
  last_of n xs = drop (length xs - n) xs

  append-last_of :
      (n : ℕ) (xs : List A) (x : A) → append n (last_of n xs) x ≡ last_of n (xs ++ x ∷ [])
  unfolding append
  append-last_of n xs x =
      ap (drop (suc (length (last_of n xs)) - n))
        (sym (drop-append (length xs - n) xs (x ∷ []) (omega arith)))
      ∙ drop-drop (suc (length (last_of n xs)) - n) (length xs - n) (xs ++ x ∷ [])
      ∙ ap (λ k. drop k (xs ++ x ∷ []))
          (omega (arith, length-drop (length xs - n) xs, length-append xs (x ∷ [])))

  -- Runs a callback for one event after the other.
  abbrev pub run_entries : List A → CallbackEntry A → CallbackEntry A
  run_entries [] c = c
  run_entries (args ∷ events) c = run_entries events (run_entry args c).0

  run_entries_lem :
      (events xs : List A) (c : CallbackEntry A)
      → c.sync ≡ true
      → c.queue ≡ last_of max_pending xs
      → run_entries events c ≡ record c { queue = last_of max_pending (xs ++ events) }
  unfolding run_entry
  run_entries_lem [] xs c s q = rw (append-nil xs, ← q)
  run_entries_lem (e ∷ events) xs c s q =
      let stepped : (run_entry e c).0 ≡ record c { queue = last_of max_pending (xs ++ e ∷ []) } =
        ground (arith, ap (λ ys. append max_pending ys e) q ∙ append-last_of max_pending xs e) in
      ap (run_entries events) stepped
      ∙ run_entries_lem events (xs ++ e ∷ [])
          (record c { queue = last_of max_pending (xs ++ e ∷ []) }) s refl
      ∙ ap (λ ys. record c { queue = last_of max_pending ys }) (append_assoc xs (e ∷ []) events)

  poll_pending_lem :
      (queue : List A) (c : CallbackEntry A)
      → c.sync ≡ true
      → poll_pending (length queue) (record c { queue = queue })
        ≡ (record c { queue = [] }, map (λ args. (c.func, args)) queue)
  unfolding poll_pending poll_entry
  poll_pending_lem [] c s = refl
  poll_pending_lem (args ∷ queue) c s = ground (arith, poll_pending_lem queue c s)

  -- A synchronous callback with at most a thousand pending events that is run for some events and then
  -- polled is called for its pending
  -- events and for these, in their order, of which it may miss the oldest when they are more than a
  -- thousand, and then has no pending event.
  pub poll_pending-run_entries :
      (events : List A) (c : CallbackEntry A)
      → c.sync ≡ true
      → length c.queue ≤ max_pending
      → let c' = run_entries events c in
        poll_pending (length c'.queue) c' ≡ (
          record c { queue = [] },
          map (λ args. (c.func, args)) (last_of max_pending (c.queue ++ events)),
        )
  poll_pending-run_entries events c s l =
      let none_over : length c.queue - max_pending ≡ 0 = omega arith in
      let whole : last_of max_pending c.queue ≡ c.queue = ap (λ k. drop k c.queue) none_over in
      let e = run_entries_lem events c.queue c s (sym whole) in
      rw e (poll_pending_lem (last_of max_pending (c.queue ++ events)) c s)

  -- The calls that are due at a poll, callback by callback in the order of registration.
  abbrev pub pending_calls : Dict ℕ (CallbackEntry A) → List (Callable × A)
  pending_calls [] = []
  pending_calls ((id, c) ∷ cs) =
      (if c.sync then map (λ args. (c.func, args)) c.queue else []) ++ pending_calls cs

  -- The callbacks with no event pending at the synchronous ones.
  abbrev pub drained : Dict ℕ (CallbackEntry A) → Dict ℕ (CallbackEntry A)
  drained [] = []
  drained ((id, c) ∷ cs) = (id, if c.sync then record c { queue = [] } else c) ∷ drained cs

  poll_all_lem : (cs : Dict ℕ (CallbackEntry A)) → poll_all cs ≡ (drained cs, pending_calls cs)
  unfolding poll_all
  poll_all_lem [] = refl
  poll_all_lem ((id, c) ∷ cs) = elim (Bool-cases c.sync) [
    | inl e ↦ ground (arith, poll_all_lem cs, poll_pending_lem c.queue c e)
    | inr e ↦ ground (arith, poll_all_lem cs)
  ]

  -- A poll calls every synchronous callback for each of its pending events, in the order in which
  -- the callbacks were registered and the events came, and leaves no event pending and the other
  -- callbacks as they are. None of its own polls raises.
  pub poll-pending_calls :
      (h : CallbackHandler A)
      → poll h
        ≡ record h { callbacks = drained h.callbacks; calls = h.calls ++ pending_calls h.callbacks }
  unfolding poll
  poll-pending_calls h = rw (poll_all_lem h.callbacks)

  run_all-event_type :
      (type : String) (args : A) (cs : Dict ℕ (CallbackEntry A))
      → event_type type ≡ none
      → run_all type args cs ≡ (cs, [])
  unfolding run_all
  run_all-event_type type args [] e = refl
  run_all-event_type type args ((id, c) ∷ cs) e =
      ground (arith, run_all-event_type type args cs e, value-event_type c.event_type type e)

  -- An event whose name is not the value of an EventType, for which no callback can be registered,
  -- runs no callback and puts none of them in a queue.
  run-event_type :
      (type : String) (args : A) (h : CallbackHandler A)
      → event_type type ≡ none
      → run type args h ≡ h
  unfolding run
  run-event_type type args h e =
      rw (run_all-event_type type args h.callbacks e)
        (ap (λ c. record h { calls = c }) (append-nil h.calls))
