-- ===== src/ScanServer/Worker/Waiting/Progress.antt =====
-- When a wait of ScanWorker comes to its end (scan_server/scan_server/scan_worker.py).
use bec.Prelude.{String, ◌≡◌, ◌⊎◌, inl, inr, none, some, List, [], ◌∷◌, ◌++◌, arith, All}
use bec.ScanServer.Messages.{DeviceInstructionMessage}
use bec.ScanServer.Queue.Status.{InstructionQueueStatus}
use bec.ScanServer.Worker.State.{
  DeviceReply, Poll, ScanWorker, continues, check_for_interruption, wait_while_paused,
}
use bec.ScanServer.Worker.Waiting.{Verdict, ready, retry, replies, wait_for}

-- The worker runs, and nobody changes that.
abbrev pub IsQuiet : ScanWorker → Type 0
IsQuiet w = (w.statuses ≡ []) × (w.status ≡ InstructionQueueStatus.running)

check_for_interruption-IsQuiet :
    (w : ScanWorker) → IsQuiet w → check_for_interruption w ≡ continues w
unfolding check_for_interruption wait_while_paused
check_for_interruption-IsQuiet w q = ground (arith, q.0, q.1)

-- A poll that lets the wait go on: a device has not replied, or the replies are not those waited for.
abbrev pub IsEarly : List String → (List DeviceReply → Verdict) → Poll → Type 0
IsEarly ds judge poll =
    (replies poll ds ≡ none)
    ⊎ ((rs : List DeviceReply) × (replies poll ds ≡ some rs) × (judge rs ≡ retry))

-- While nobody interrupts it, a wait takes one poll after the other and ends with the first one whose
-- replies are ready, having changed nothing else.
pub wait_for-continues :
    (before after : List Poll) (poll : Poll) (rs : List DeviceReply)
    (instr : DeviceInstructionMessage) (ds : List String) (judge : List DeviceReply → Verdict)
    (w : ScanWorker)
    → IsQuiet w
    → All (IsEarly ds judge) before
    → replies poll ds ≡ some rs
    → judge rs ≡ ready
    → wait_for (before ++ poll ∷ after) instr ds judge w ≡ continues (record w { polls = after })
unfolding wait_for
wait_for-continues [] after poll rs instr ds judge w q b r j =
    ground (arith, check_for_interruption-IsQuiet (record w { polls = after }) q)
wait_for-continues (early ∷ before) after poll rs instr ds judge w q (inl n, b) r j = ground (
  arith,
  check_for_interruption-IsQuiet (record w { polls = before ++ poll ∷ after }) q,
  wait_for-continues before after poll rs instr ds judge
      (record w { polls = before ++ poll ∷ after }) q b r j,
)
wait_for-continues (early ∷ before) after poll rs instr ds judge w q (inr (ts, n, y), b) r j =
    ground (
      arith,
      check_for_interruption-IsQuiet (record w { polls = before ++ poll ∷ after }) q,
      wait_for-continues before after poll rs instr ds judge
          (record w { polls = before ++ poll ∷ after }) q b r j,
    )
