-- ===== src/ScanServer/Queue/Manager/Restarts.antt =====
-- New requests and restarts (add_to_queue, set_restart and _wait_for_queue_to_appear_in_history of
-- scan_server/scan_server/scan_queue.py).
use bec.Prelude.{
  [], ℕ, zero, suc, ◌<◌, String, ◌≡◌, refl, inl, inr, ◌⊎◌, Option, none, some, List, ◌∷◌, arith,
  length, Option-cases, eq_of_some, ◌∙◌, ap, sym,
}
use bec.ScanServer.Messages.{ScanQueueMessage, Scan, scan_request}
use bec.ScanServer.Queue.Line.{ScanQueue, Position, at, target, insert, insert_new}
use bec.ScanServer.Queue.Manager.{QueueManager, add_to_queue, queue_of, appeared, wait_in_history}
use bec.ScanServer.Queue.Manager.Modifications.{queue_of-on_queue}

-- What holds at 0 and behind it holds up to the successor.
before_suc {ℓ} :
    (P : ℕ → Type ℓ) (k : ℕ) → P 0 → ((j : ℕ) → j < k → P (suc j)) → (j : ℕ) → j < suc k → P j
before_suc P k first later zero h = first
before_suc P k first later (suc j) h = later j (omega arith)

-- The numbers below k.
abbrev pub below : ℕ → List ℕ
below zero = []
below (suc k) = k ∷ below k

module _ (assembler : ScanQueueMessage → Option Scan) (raised : ScanQueueMessage → String) where
  queue_of-add_to_queue :
      (name : String) (msg : ScanQueueMessage) (p : Position) (u v : String) (m : QueueManager)
      → queue_of name (add_to_queue assembler raised name msg p u v m)
        ≡ insert assembler msg p u v (queue_of name m)
  unfolding add_to_queue
  queue_of-add_to_queue name msg p u v m = elim (Option-cases (assembler msg)) [
    | inl e ↦ rw (e, add_to_queue) (queue_of-on_queue name (insert assembler msg p u v) m)
    | inr (scan, e) ↦ rw (e, add_to_queue) (queue_of-on_queue name (insert assembler msg p u v) m)
  ]

  insert_refused :
      (msg : ScanQueueMessage) (p : Position) (u v : String) (q : ScanQueue)
      → assembler msg ≡ none
      → target msg q ≡ none
      → insert assembler msg p u v q ≡ q
  unfolding insert
  insert_refused msg p u v q e t = rw (t, insert) (rw (e, insert_new))

  -- A message that the assembler refuses, and that would have made a new item, leaves its queue as it
  -- was and the numbers too; one alarm is raised, for this message, which names the class of the
  -- exception.
  pub add_to_queue_refused :
      (name : String) (msg : ScanQueueMessage) (p : Position) (u v : String) (m : QueueManager)
      → assembler msg ≡ none
      → target msg (queue_of name m) ≡ none
      → (queue_of name (add_to_queue assembler raised name msg p u v m) ≡ queue_of name m)
        × ((add_to_queue assembler raised name msg p u v m).server ≡ record (m.server) {
          alarms = record { source = scan_request msg; alarm_type = raised msg } ∷ m.server.alarms;
        })
  unfolding add_to_queue
  add_to_queue_refused name msg p u v m e t = (
    queue_of-add_to_queue name msg p u v m ∙ insert_refused msg p u v (queue_of name m) e t,
    rw (e, add_to_queue),
  )

  -- What a poll finds: the first of the coming states in which the item of `id` is the last of the
  -- history and has left the head of the queue.
  pub wait_in_history_earliest :
      (polls : ℕ) (name id : String) (seen : ℕ → QueueManager) (r : ℕ) (m : QueueManager)
      → wait_in_history polls name id seen ≡ some (r, m)
      → (k : ℕ) × (k < polls)
        × (m ≡ seen k)
        × (appeared id (queue_of name (seen k)) ≡ some r)
        × ((j : ℕ) → j < k → appeared id (queue_of name (seen j)) ≡ none)
  unfolding wait_in_history
  wait_in_history_earliest zero name id seen r m e = cc
  wait_in_history_earliest (suc polls) name id seen r m e =
      elim (Option-cases (appeared id (queue_of name (seen 0)))) [
        | inr (s, f) ↦
            let found : ◌≡◌ {A = Option (ℕ × QueueManager)} (some (s, seen 0)) (some (r, m)) =
              rw (f, wait_in_history) at e in
            let same = eq_of_some (s, seen 0) (r, m) found in
            (
              0,
              omega arith,
              sym (ap (λ x. x.1) same),
              f ∙ ap (λ x. some x.0) same,
              λ j h. absurd (omega arith),
            )
        | inl f ↦
            let (k, small, here, there, before) =
              wait_in_history_earliest polls name id (λ n. seen (suc n)) r m
                (rw (f, wait_in_history) at e) in
            (
              suc k,
              omega arith,
              here,
              there,
              before_suc (λ j. appeared id (queue_of name (seen j)) ≡ none) k f before,
            )
      ]

  -- If none of the polls finds the item in the history, the wait ends without one.
  wait_in_history-none :
      (polls : ℕ) (name id : String) (seen : ℕ → QueueManager)
      → ((j : ℕ) → j < polls → appeared id (queue_of name (seen j)) ≡ none)
      → wait_in_history polls name id seen ≡ none
  unfolding wait_in_history
  wait_in_history-none zero name id seen h = refl
  wait_in_history-none (suc polls) name id seen h =
      rw (h 0 (omega arith), wait_in_history)
        (wait_in_history-none polls name id (λ n. seen (suc n)) (λ j l. h (suc j) (omega arith)))

  -- A message makes one new item at the head of the queue, or none.
  abbrev pub IsFirst : ScanQueue → ScanQueue → Type 0
  IsFirst q q' = (q'.queue ≡ q.queue) ⊎ (q'.queue ≡ length q.store ∷ q.queue)
