-- ===== src/ScanServer/Queue/Numbering/Order.antt =====
-- Predicted scan numbers against the order of the queue (scan_server/scan_server/scan_queue.py).
use bec.Prelude.{
  ℕ, ◌+◌, ◌<◌, String, ◌≡◌, inl, inr, Option, none, some, true, false, List, [], ◌∷◌, ◌++◌, ◌==◌,
  truthy, if◌then◌else◌, length, string_eq, option_eq, keep, All, arith, Bool-cases, beq_refl,
}
use bec.ScanServer.Messages.{Server}
use bec.ScanServer.Queue.Status.{is_completed}
use bec.ScanServer.Queue.Block.{RequestBlock, scan_ids}
use bec.ScanServer.Queue.Item.{InstructionQueueItem}
use bec.ScanServer.Queue.Numbering.{head_in, scan_ids_head, scan_number}

-- How many scans a list of scan ids counts.
abbrev pub scans_in : List (Option String) → ℕ
scans_in ids = length (keep truthy ids)

-- How many scans the items of a list have ahead of whatever stands behind them.
abbrev pub scans_ahead : List InstructionQueueItem → ℕ
scans_ahead [] = 0
scans_ahead (it ∷ its) =
    if is_completed it.status
    then scans_ahead its
    else scans_in (scan_ids it.queue) + scans_ahead its

head_in_lem :
    (t : Option String) (a b : List (Option String)) (offset : ℕ)
    → All (λ s. (s == t) ≡ false) a
    → head_in t (a ++ t ∷ b) offset ≡ offset + scans_in a
unfolding head_in
head_in_lem t [] b offset h = rw (beq_refl t) (omega arith)
head_in_lem t (s ∷ a) b offset h = elim (Bool-cases (truthy s)) [
  | inl e ↦ rw (h.0, e) (omega (arith, head_in_lem t a b (offset + 1) h.1))
  | inr e ↦ rw (h.0, e) (omega (arith, head_in_lem t a b offset h.1))
]

-- The items before the block's own, each of another queue id.
abbrev pub AreOthers : String → List InstructionQueueItem → Type 0
AreOthers queue_id = All (λ (j : InstructionQueueItem). (j.queue_id == queue_id) ≡ false)

scan_ids_head_from :
    (pre post : List InstructionQueueItem) (it : InstructionQueueItem) (t : Option String)
    (a b : List (Option String)) (offset : ℕ)
    → AreOthers it.queue_id pre
    → is_completed it.status ≡ false
    → scan_ids it.queue ≡ a ++ t ∷ b
    → All (λ s. (s == t) ≡ false) a
    → scan_ids_head (pre ++ it ∷ post) it.queue_id t offset
      ≡ offset + (scans_ahead pre + scans_in a)
unfolding scan_ids_head
scan_ids_head_from [] post it t a b offset o c e h =
    rw (c, beq_refl it.queue_id, e) (omega (arith, head_in_lem t a b offset h))
scan_ids_head_from (j ∷ pre) post it t a b offset o c e h =
    elim (Bool-cases (is_completed j.status)) [
      | inl done ↦ rw done (scan_ids_head_from pre post it t a b offset o.1 c e h)
      | inr going ↦
          rw (going, o.0)
            (omega (
              arith,
              scan_ids_head_from pre post it t a b (offset + scans_in (scan_ids j.queue)) o.1 c e h,
            ))
    ]

-- Where a block stands: in the item `it`, behind the items `pre` and the scan ids `a`.
pub record StandsAt (items pre : List InstructionQueueItem) (it : InstructionQueueItem)
    (a : List (Option String)) (t : Option String) : Type 0 where
  pub post : List InstructionQueueItem
  pub b : List (Option String)
  pub split : items ≡ pre ++ it ∷ post
  pub others : AreOthers it.queue_id pre
  pub going : is_completed it.status ≡ false
  pub ids : scan_ids it.queue ≡ a ++ t ∷ b
  pub first : All (λ s. (s == t) ≡ false) a

-- The offset of a block's scan number is the number of scans that wait ahead of it: those of the
-- items before its own that are not completed, and those before it in its own item.
pub scan_ids_head-scans_ahead :
    (items pre : List InstructionQueueItem) (it : InstructionQueueItem) (a : List (Option String))
    (t : Option String)
    → StandsAt items pre it a t
    → scan_ids_head items it.queue_id t 0 ≡ scans_ahead pre + scans_in a
scan_ids_head-scans_ahead items pre it a t s =
    rw (s.split)
      (omega (arith, scan_ids_head_from pre s.post it t a s.b 0 s.others s.going s.ids s.first))

scans_in-append : (a b : List (Option String)) → scans_in (a ++ b) ≡ scans_in a + scans_in b
scans_in-append [] b = omega arith
scans_in-append (s ∷ a) b = ground (arith, scans_in-append a b)

scans_ahead-append :
    (xs ys : List InstructionQueueItem) → scans_ahead (xs ++ ys) ≡ scans_ahead xs + scans_ahead ys
scans_ahead-append [] ys = omega arith
scans_ahead-append (x ∷ xs) ys = ground (arith, scans_ahead-append xs ys)

-- A block whose number is still a prediction.
pub record IsPredicted (rb : RequestBlock) (t : Option String) : Type 0 where
  pub scans : rb.is_scan ≡ true
  pub unassigned : rb.assigned_scan_number ≡ none
  pub named : rb.scan_id ≡ t

scan_number_predicted :
    (server : Server) (items : List InstructionQueueItem) (queue_id : String) (rb : RequestBlock)
    (t : Option String)
    → IsPredicted rb t
    → scan_number server items queue_id rb
      ≡ some (server.scan_number + scan_ids_head items queue_id t 0)
unfolding scan_number
scan_number_predicted server items queue_id rb t p = rw (p.scans, p.unassigned, p.named)

scans_ahead-lt :
    (pre mid : List InstructionQueueItem) (it : InstructionQueueItem) (a b : List (Option String))
    (t : Option String)
    → is_completed it.status ≡ false
    → scan_ids it.queue ≡ a ++ t ∷ b
    → truthy t ≡ true
    → scans_ahead pre + scans_in a < scans_ahead (pre ++ it ∷ mid)
scans_ahead-lt pre mid it a b t c e h =
    rw (scans_ahead-append pre (it ∷ mid), c, e, scans_in-append a (t ∷ b), h) (omega arith)

-- A scan that stands behind another, in a later item, is predicted a greater number.
pub scan_number-lt :
    (server : Server) (items pre mid : List InstructionQueueItem) (it it' : InstructionQueueItem)
    (a a' : List (Option String)) (t t' : Option String) (rb rb' : RequestBlock)
    → StandsAt items pre it a t
    → StandsAt items (pre ++ it ∷ mid) it' a' t'
    → truthy t ≡ true
    → IsPredicted rb t
    → IsPredicted rb' t'
    → (n : ℕ) × (m : ℕ) × (scan_number server items it.queue_id rb ≡ some n)
      × (scan_number server items it'.queue_id rb' ≡ some m)
      × (n < m)
scan_number-lt server items pre mid it it' a a' t t' rb rb' s s' h p p' = (
  server.scan_number + scan_ids_head items it.queue_id t 0,
  server.scan_number + scan_ids_head items it'.queue_id t' 0,
  scan_number_predicted server items it.queue_id rb t p,
  scan_number_predicted server items it'.queue_id rb' t' p',
  omega (
    arith,
    scan_ids_head-scans_ahead items pre it a t s,
    scan_ids_head-scans_ahead items (pre ++ it ∷ mid) it' a' t' s',
    scans_ahead-lt pre mid it a s.b t s.going s.ids h,
  ),
)
