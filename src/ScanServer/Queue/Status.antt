-- ===== src/ScanServer/Queue/Status.antt =====
-- The two enumerations of scan_queue.py.
use bec.Prelude.{Bool, true, false}

pub data InstructionQueueStatus : Type 0 where
  stopped pending idle paused deferred_pause running completed : InstructionQueueStatus

pub data ScanQueueStatus : Type 0 where
  paused running : ScanQueueStatus

abbrev pub is_completed : InstructionQueueStatus → Bool
is_completed InstructionQueueStatus.completed = true
is_completed _ = false

abbrev pub is_pending : InstructionQueueStatus → Bool
is_pending InstructionQueueStatus.pending = true
is_pending _ = false

abbrev pub is_paused : ScanQueueStatus → Bool
is_paused ScanQueueStatus.paused = true
is_paused ScanQueueStatus.running = false
