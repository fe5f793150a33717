-- ===== src/ScanServer/Queue/Line/Invariant.antt =====
-- Every operation of a scan queue keeps its references in order
-- (scan_server/scan_server/scan_queue.py).
use bec.Prelude.{
  ℕ, zero, suc, ◌≤◌, ◌<◌, String, ◌≡◌, refl, ◌≢◌, inl, inr, Option, none, some, List, [], ◌∷◌, ◌++◌,
  length, arith, All, All-append, All-mono, All-take, All-drop, take, drop, length-update,
  length-append, keep, Option-cases, nat_eq, Bool-cases, ◌==◌,
}
use bec.ScanServer.Messages.{ScanQueueMessage, Scan}
use bec.ScanServer.Queue.Status.{InstructionQueueStatus, ScanQueueStatus}
use bec.ScanServer.Queue.Item.{InstructionQueueItem}
use bec.ScanServer.Queue.Line.{
  ScanQueue, scan_queue, set_status, set_worker_status, set_first_status, clear, target, holds_any,
  remove, remove_each, remove_queue_item, Position, last, at, place, insert_existing, insert_new,
  insert, abort, max_history,
}

abbrev pub Below : ℕ → List ℕ → Type 0
Below n = All (λ r. r < n)

-- No member twice.
abbrev pub AreDistinct : List ℕ → Type 0
AreDistinct [] = Unit {0}
AreDistinct (r ∷ rs) = All (λ s. r ≢ s) rs × AreDistinct rs

abbrev pub IsActiveBelow : ℕ → Option ℕ → Type 0
IsActiveBelow n none = Unit {0}
IsActiveBelow n (some r) = r < n

-- The references name items, no item is queued twice, and the history keeps its bound.
pub record IsWellFormed (q : ScanQueue) : Type 0 where
  pub queued : Below (length q.store) q.queue
  pub distinct : AreDistinct q.queue
  pub past : Below (length q.store) q.history_queue
  pub current : IsActiveBelow (length q.store) q.active_instruction_queue
  pub bounded : length q.history_queue ≤ max_history

pub Below-mono : (m n : ℕ) (rs : List ℕ) → m ≤ n → Below m rs → Below n rs
Below-mono m n rs h b = All-mono (λ r. r < m) (λ r. r < n) (λ r p. omega arith) rs b

IsActiveBelow-mono : (m n : ℕ) (o : Option ℕ) → m ≤ n → IsActiveBelow m o → IsActiveBelow n o
IsActiveBelow-mono m n none h b = tt
IsActiveBelow-mono m n (some r) h b = omega arith

Below-ne : (n : ℕ) (rs : List ℕ) → Below n rs → All (λ s. n ≢ s) rs
Below-ne n rs b = All-mono (λ r. r < n) (λ s. n ≢ s) (λ r p. omega arith) rs b

-- A new reference may be put anywhere.
take-append-drop-Distinct :
    (n i : ℕ) (rs : List ℕ)
    → All (λ s. n ≢ s) rs
    → AreDistinct rs
    → AreDistinct (take i rs ++ n ∷ drop i rs)
take-append-drop-Distinct n zero rs b d = (b, d)
take-append-drop-Distinct n (suc i) [] b d = (tt, tt)
take-append-drop-Distinct n (suc i) (r ∷ rs) b d = (
  All-append _ (take i rs) (n ∷ drop i rs) (All-take _ i rs d.0)
      (λ e. b.0 (omega arith), All-drop _ i rs d.0),
  take-append-drop-Distinct n i rs b.1 d.1,
)

append-Distinct :
    (n : ℕ) (rs : List ℕ) → All (λ s. n ≢ s) rs → AreDistinct rs → AreDistinct (rs ++ n ∷ [])
append-Distinct n [] b d = (tt, tt)
append-Distinct n (r ∷ rs) b d =
    (All-append _ rs (n ∷ []) d.0 (λ e. b.0 (omega arith), tt), append-Distinct n rs b.1 d.1)

place-Distinct :
    (p : Position) (n : ℕ) (rs : List ℕ) → Below n rs → AreDistinct rs → AreDistinct (place p n rs)
place-Distinct last n rs b d = append-Distinct n rs (Below-ne n rs b) d
place-Distinct (at i) n rs b d = take-append-drop-Distinct n i rs (Below-ne n rs b) d

place-Below : (p : Position) (n : ℕ) (rs : List ℕ) → Below n rs → Below (suc n) (place p n rs)
place-Below last n rs b =
    All-append _ rs (n ∷ []) (Below-mono n (suc n) rs (omega arith) b) (omega arith, tt)
place-Below (at i) n rs b =
    let wide = Below-mono n (suc n) rs (omega arith) b in
    All-append _ (take i rs) (n ∷ drop i rs) (All-take _ i rs wide)
      (omega arith, All-drop _ i rs wide)

pub remove-All {ℓ} : (P : ℕ → Type ℓ) (r : ℕ) (rs : List ℕ) → All P rs → All P (remove r rs)
unfolding remove
remove-All P r [] h = tt
remove-All P r (s ∷ rs) h = elim (Bool-cases (s == r)) [
  | inl e ↦ rw e h.1
  | inr e ↦ rw e (h.0, remove-All P r rs h.1)
]

remove-Distinct : (r : ℕ) (rs : List ℕ) → AreDistinct rs → AreDistinct (remove r rs)
unfolding remove
remove-Distinct r [] h = tt
remove-Distinct r (s ∷ rs) h = elim (Bool-cases (s == r)) [
  | inl e ↦ rw e h.1
  | inr e ↦ rw e (remove-All _ r rs h.0, remove-Distinct r rs h.1)
]

remove_each-All {ℓ} : (P : ℕ → Type ℓ) (rs xs : List ℕ) → All P xs → All P (remove_each rs xs)
remove_each-All P [] xs h = h
remove_each-All P (r ∷ rs) xs h = remove_each-All P rs (remove r xs) (remove-All P r xs h)

remove_each-Distinct : (rs xs : List ℕ) → AreDistinct xs → AreDistinct (remove_each rs xs)
remove_each-Distinct [] xs h = h
remove_each-Distinct (r ∷ rs) xs h = remove_each-Distinct rs (remove r xs) (remove-Distinct r xs h)

pub scan_queue-IsWellFormed : IsWellFormed scan_queue
unfolding scan_queue
scan_queue-IsWellFormed = record {
  queued = tt;
  distinct = tt;
  past = tt;
  current = tt;
  bounded = omega arith;
}

-- What leaves the references alone and drops no item.
pub keep-IsWellFormed :
    (q q' : ScanQueue)
    → length q'.store ≡ length q.store
    → q'.queue ≡ q.queue
    → q'.history_queue ≡ q.history_queue
    → q'.active_instruction_queue ≡ q.active_instruction_queue
    → IsWellFormed q
    → IsWellFormed q'
keep-IsWellFormed q q' n e f g w = record {
  queued = rw (n, e) w.queued;
  distinct = rw e w.distinct;
  past = rw (n, f) w.past;
  current = rw (n, g) w.current;
  bounded = rw f w.bounded;
}

set_first_status-IsWellFormed :
    (v : InstructionQueueStatus) (rs : List ℕ) (q : ScanQueue)
    → IsWellFormed q
    → IsWellFormed (set_first_status v rs q)
unfolding set_first_status
set_first_status-IsWellFormed v [] q w = w
set_first_status-IsWellFormed v (r ∷ rs) q w =
    keep-IsWellFormed q _ (length-update r _ q.store) refl refl refl w

pub set_worker_status-IsWellFormed :
    (v : InstructionQueueStatus) (q : ScanQueue)
    → IsWellFormed q
    → IsWellFormed (set_worker_status v q)
unfolding set_worker_status
set_worker_status-IsWellFormed v q w = set_first_status-IsWellFormed v q.queue q w

pub set_status-IsWellFormed :
    (v : ScanQueueStatus) (q : ScanQueue) → IsWellFormed q → IsWellFormed (set_status v q)
unfolding set_status
set_status-IsWellFormed v q w = keep-IsWellFormed q _ refl refl refl refl w

pub clear-IsWellFormed : (q : ScanQueue) → IsWellFormed q → IsWellFormed (clear q)
unfolding clear
clear-IsWellFormed q w = record {
  queued = tt;
  distinct = tt;
  past = w.past;
  current = tt;
  bounded = w.bounded;
}

pub remove_queue_item-IsWellFormed :
    (ids : List (Option String)) (q : ScanQueue)
    → IsWellFormed q
    → IsWellFormed (remove_queue_item ids q)
unfolding remove_queue_item
remove_queue_item-IsWellFormed [] q w = w
remove_queue_item-IsWellFormed (i ∷ is) q w = record {
  queued = remove_each-All _ (keep (holds_any (i ∷ is) q) q.queue) q.queue w.queued;
  distinct = remove_each-Distinct (keep (holds_any (i ∷ is) q) q.queue) q.queue w.distinct;
  past = w.past;
  current = w.current;
  bounded = w.bounded;
}

pub abort-IsWellFormed : (q : ScanQueue) → IsWellFormed q → IsWellFormed (abort q)
unfolding abort
abort-IsWellFormed q w = elim (Option-cases q.active_instruction_queue) [
  | inl e ↦ rw (e, abort) w
  | inr (r, e) ↦ rw (e, abort) (keep-IsWellFormed q _ (length-update r _ q.store) refl refl refl w)
]

-- A new item at the end of the store.
grow-IsWellFormed :
    (it : InstructionQueueItem) (p : Position) (q : ScanQueue)
    → IsWellFormed q
    → IsWellFormed
        (record q { store = q.store ++ it ∷ []; queue = place p (length q.store) q.queue })
grow-IsWellFormed it p q w =
    let n : length (q.store ++ it ∷ []) ≡ suc (length q.store) =
      omega (arith, length-append q.store (it ∷ [])) in
    record {
      queued = rw n (place-Below p (length q.store) q.queue w.queued);
      distinct = place-Distinct p (length q.store) q.queue w.queued w.distinct;
      past = rw n (Below-mono _ (suc (length q.store)) q.history_queue (omega arith) w.past);
      current = rw n (
          IsActiveBelow-mono _ (suc (length q.store)) q.active_instruction_queue (omega arith)
            w.current);
      bounded = w.bounded;
    }

module _ (assembler : ScanQueueMessage → Option Scan) (msg : ScanQueueMessage) (p : Position)
    (queue_uuid scan_uuid : String) (q : ScanQueue) where
  insert_new-IsWellFormed :
      IsWellFormed q → IsWellFormed (insert_new assembler msg p queue_uuid scan_uuid q)
  unfolding insert_new
  insert_new-IsWellFormed w = elim (Option-cases (assembler msg)) [
    | inl e ↦ rw (e, insert_new) w
    | inr (scan, e) ↦ rw (e, insert_new) (grow-IsWellFormed _ p q w)
  ]

  insert_existing-IsWellFormed :
      (r : ℕ) → IsWellFormed q → IsWellFormed (insert_existing assembler r msg scan_uuid q)
  unfolding insert_existing
  insert_existing-IsWellFormed r w =
      keep-IsWellFormed q _ (length-update r _ q.store) refl refl refl w

  -- Putting a message into the queue keeps it well-formed, whether the message joins an item, makes
  -- a new one, or is refused by the assembler.
  pub insert-IsWellFormed :
      IsWellFormed q → IsWellFormed (insert assembler msg p queue_uuid scan_uuid q)
  unfolding insert
  insert-IsWellFormed w = elim (Option-cases (target msg q)) [
    | inl e ↦ rw (e, insert) (insert_new-IsWellFormed w)
    | inr (r, e) ↦ rw (e, insert) (insert_existing-IsWellFormed r w)
  ]
