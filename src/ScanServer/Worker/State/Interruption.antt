-- ===== src/ScanServer/Worker/State/Interruption.antt =====
-- What an interruption of ScanWorker changes (scan_server/scan_server/scan_worker.py).
use bec.Prelude.{
  ◌≡◌, ◌⊎◌, refl, inl, inr, none, some, Bool, true, false, List, [], ◌∷◌, if◌then◌else◌, arith,
  Bool-cases, Option-cases, ◌∙◌, ap, subst, sym,
}
use bec.ScanServer.Queue.Status.{InstructionQueueStatus}
use bec.ScanServer.Worker.State.{
  ScanWorker, scan_status, Result, continues, scan_abortion, blocks, raises, send, send_scan_status,
  next_status, read_status, is_paused, is_stopped, wait_while_paused, stop_if_stopped,
  check_for_interruption,
}

-- The worker with another status, and with what is left of its schedule of statuses.
abbrev pub with_status :
    InstructionQueueStatus → List InstructionQueueStatus → ScanWorker → ScanWorker
with_status s ss w = record w { status = s; statuses = ss }

-- The same but for the status and its schedule.
abbrev pub Same : ScanWorker → ScanWorker → Type 0
Same w v =
    (s : InstructionQueueStatus) × (ss : List InstructionQueueStatus) × (v ≡ with_status s ss w)

Same-trans : (u v w : ScanWorker) → Same u v → Same v w → Same u w
Same-trans u v w (s, ss, p) (t, ts, q) = (t, ts, q ∙ ap (with_status t ts) p)

next_status-Same : (ss : List InstructionQueueStatus) (w : ScanWorker) → Same w (next_status ss w)
next_status-Same [] w = (w.status, w.statuses, refl)
next_status-Same (s ∷ ss) w = (s, ss, refl)

wait_while_paused-Same :
    (ss : List InstructionQueueStatus) (w v : ScanWorker)
    → wait_while_paused ss w ≡ some v
    → Same w v
unfolding wait_while_paused
wait_while_paused-Same [] w v e = (w.status, w.statuses, ground arith)
wait_while_paused-Same (s ∷ ss) w v e = elim (Bool-cases (is_paused s)) [
  | inl p ↦ wait_while_paused-Same ss (with_status s ss w) v (ground arith)
  | inr p ↦ (s, ss, ground arith)
]

-- Nothing but the status, its schedule and the report of a pause.
abbrev pub Differs : ScanWorker → ScanWorker → Type 0
Differs w v =
    Same w v ⊎ Same (send (scan_status w.current_scan_id "paused" w.current_scan_info) w) v

reported-Differs :
    (b : Bool) (w v : ScanWorker) (s : InstructionQueueStatus) (ss : List InstructionQueueStatus)
    → Same
        (if b
          then send
              (scan_status w.current_scan_id "paused" w.current_scan_info)
              (with_status s ss w)
          else with_status s ss w)
        v
    → Differs w v
reported-Differs true w v s ss q = inr q
reported-Differs false w v s ss q = inl q

-- The worker that a check leaves, and whether it is stopped.
abbrev pub Checked : ScanWorker → Result → Type 0
Checked w (continues v) = Differs w v × (is_stopped v.status ≡ false)
Checked w (scan_abortion v) = Differs w v × (is_stopped v.status ≡ true)
Checked w (blocks v) = Differs w v
Checked w (raises e v) = ⊥

stop_if_stopped-Checked : (w v : ScanWorker) → Differs w v → Checked w (stop_if_stopped v)
stop_if_stopped-Checked w v d = elim (Bool-cases (is_stopped v.status)) [
  | inl e ↦ rw e (d, e)
  | inr e ↦ rw e (d, e)
]

-- The check once it has read the status.
abbrev checked : ScanWorker → Result
unfolding send_scan_status wait_while_paused
checked u =
    let r = if is_paused u.status then send_scan_status "paused" u else u in
    elim (wait_while_paused r.statuses r) [
      | none ↦ blocks r
      | some v ↦ stop_if_stopped (read_status v)
    ]

checked-Checked :
    (w : ScanWorker) (s : InstructionQueueStatus) (ss : List InstructionQueueStatus)
    → Checked w (checked (with_status s ss w))
unfolding checked
checked-Checked w s ss =
    let u = with_status s ss w in
    let r = if is_paused s then send_scan_status "paused" u else u in
    elim (Option-cases (wait_while_paused r.statuses r)) [
      | inl e ↦ rw e (reported-Differs (is_paused s) w r s ss (r.status, r.statuses, refl))
      | inr (v, e) ↦
          let last =
            Same-trans r v (read_status v) (wait_while_paused-Same r.statuses r v e)
              (next_status-Same v.statuses v) in
          rw e (
            stop_if_stopped-Checked w (read_status v)
              (reported-Differs (is_paused s) w (read_status v) s ss last))
    ]

-- A check for an interruption raises a ScanAbortion exactly when it finds the worker stopped at the
-- end, and whatever the pauses that it waits through changes only the worker's status, besides
-- sending at most one report of a pause.
pub check_for_interruption-Checked : (w : ScanWorker) → Checked w (check_for_interruption w)
unfolding check_for_interruption checked
check_for_interruption-Checked w =
    let (s, ss, p) = next_status-Same w.statuses w in
    subst (λ u. Checked w (checked u)) (sym p) (checked-Checked w s ss)
