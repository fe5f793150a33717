-- ===== src/ScanServer/Worker/Loop/Endings.antt =====
-- How a queue item and a scan end in ScanWorker (scan_server/scan_server/scan_worker.py).
use bec.Prelude.{
  String, ◌≡◌, refl, inl, inr, none, some, Bool, true, false, ◌&&◌, ◌||◌, not, List, [], ◌∷◌,
  string_eq, if◌then◌else◌, arith, Bool-cases, contains, keep, beq_refl, subst, exists, ◌⊎◌, Option,
}
use bec.ScanServer.Messages.{Server}
use bec.ScanServer.Queue.Status.{InstructionQueueStatus}
use bec.ScanServer.Worker.State.{
  ScanWorker, Result, continues, scan_abortion, blocks, raises, reset, send_scan_status,
}
use bec.ScanServer.Worker.Waiting.{DeviceManager}
use bec.ScanServer.Worker.Devices.{cleanup, unstage, or_enabled, difference_update}
use bec.ScanServer.Worker.Loop.{
  Item, Call, activate, run_instructions, run_to_start, shutdown, end_aborted,
  append_to_queue_history, abort, process_instructions, on_abortion, finish, after_item, run_item,
  abort_anyway,
}

keep_none :
    (p : String → Bool) (ds : List String)
    → ((d : String) → contains d ds ≡ true → p d ≡ false)
    → keep p ds ≡ []
keep_none p [] h = refl
keep_none p (d ∷ ds) h =
    let no : p d ≡ false = h d (ground (arith, beq_refl d)) in
    ground (arith, keep_none p ds (λ e m. h e (ground arith)))

-- The cleanup leaves no device staged.
cleanup-staged :
    (dm : DeviceManager) (ds : List String) → difference_update (or_enabled dm ds) ds ≡ []
cleanup-staged dm [] = refl
cleanup-staged dm (d ∷ ds) =
    keep_none (λ e. not (contains e (d ∷ ds))) (d ∷ ds) (λ e m. ground arith)

-- No wait group and no open scan is left, as in a worker that has done nothing.
abbrev pub IsReset : ScanWorker → Type 0
IsReset v =
    (v.groups ≡ [])
    × (v.current_scan_id ≡ some "")
    × (v.current_scan_info.opened ≡ none)
    × (v.scan_id ≡ none)
    × (v.scan_motors ≡ [])

abbrev pub is_abort : Call → Bool
is_abort abort = true
is_abort _ = false

abbrev pub is_shutdown : Call → Bool
is_shutdown shutdown = true
is_shutdown _ = false

-- The item is completed and inactive; or it is stopped, no device is staged and the queue is aborted;
-- or the queue is aborted and the worker ends.
abbrev pub HasEnded : Item → ScanWorker → List Call → Type 0
HasEnded item v calls =
    ((item.status ≡ InstructionQueueStatus.completed)
      × (item.is_active ≡ false)
      × (exists is_abort calls ≡ false)
      × (exists is_shutdown calls ≡ false))
    ⊎ (((item.status ≡ InstructionQueueStatus.stopped)
          × (v.staged_devices ≡ [])
          × (exists is_abort calls ≡ true)
          × (exists is_shutdown calls ≡ false))
        ⊎ ((exists is_abort calls ≡ true) × (exists is_shutdown calls ≡ true)))

abbrev EndsWell : Option (Item × ScanWorker × List Call) → Type 0
EndsWell none = Unit {0}
EndsWell (some (item, v, calls)) = IsReset v × HasEnded item v calls

end_aborted-EndsWell :
    (dm : DeviceManager) (item : Item) (w : ScanWorker) → EndsWell (some (end_aborted dm item w))
unfolding end_aborted send_scan_status cleanup reset unstage
end_aborted-EndsWell dm item w = elim (Bool-cases item.has_active_block) [
  | inl e ↦ rw e (
    (refl, refl, refl, refl, refl),
    inr (inl (refl, cleanup-staged dm w.staged_devices, refl, refl)),
  )
  | inr e ↦ rw e ((refl, refl, refl, refl, refl), inr (inr (refl, refl)))
]

abort_anyway-EndsWell :
    (dm : DeviceManager) (item : Item) (r : Result) → EndsWell (after_item dm item (abort_anyway r))
unfolding after_item reset
abort_anyway-EndsWell dm item (continues w) = end_aborted-EndsWell dm item w
abort_anyway-EndsWell dm item (scan_abortion w) = end_aborted-EndsWell dm item w
abort_anyway-EndsWell dm item (blocks w) = tt
abort_anyway-EndsWell dm item (raises e w) =
    ((refl, refl, refl, refl, refl), inr (inr (refl, refl)))

-- The end of an item, and of the loop's body after it.
abbrev ended : DeviceManager → Item × Result → Option (Item × ScanWorker × List Call)
ended dm (item, r) = after_item dm item r

on_abortion-EndsWell :
    (dm : DeviceManager) (server : Server) (item : Item) (w : ScanWorker)
    → EndsWell (ended dm (on_abortion dm server item w))
unfolding on_abortion after_item
on_abortion-EndsWell dm server item w =
    elim (Bool-cases (item.stopped || not (item.return_to_start && item.has_active_block))) [
      | inl e ↦ rw e (end_aborted-EndsWell dm item (record w { groups = [] }))
      | inr e ↦
          let running = record w { groups = []; status = InstructionQueueStatus.running } in
          rw e (
            abort_anyway-EndsWell dm (record item { stopped = true })
              (run_to_start dm server item item.to_start running))
    ]

no_abort : (b : Bool) → exists is_abort (if b then [] else append_to_queue_history ∷ []) ≡ false
no_abort true = refl
no_abort false = refl

no_shutdown :
    (b : Bool) → exists is_shutdown (if b then [] else append_to_queue_history ∷ []) ≡ false
no_shutdown true = refl
no_shutdown false = refl

finish-EndsWell :
    (dm : DeviceManager) (server : Server) (item : Item) (r : Result)
    → EndsWell (ended dm (finish dm server item r))
unfolding finish after_item reset
finish-EndsWell dm server item (continues w) = (
  (refl, refl, refl, refl, refl),
  inl (refl, refl, no_abort item.stopped, no_shutdown item.stopped),
)
finish-EndsWell dm server item (scan_abortion w) = on_abortion-EndsWell dm server item w
finish-EndsWell dm server item (blocks w) = tt
finish-EndsWell dm server item (raises e w) =
    ((refl, refl, refl, refl, refl), inr (inr (refl, refl)))

-- However the instructions of an item go, and the way back to the start, the worker has no wait group
-- and no open scan when it is done with the item, and there are three ends: the item is completed and
-- inactive; or it is stopped, no device is staged, and the queue is aborted; or the queue is aborted
-- and the worker ends.
pub run_item-HasEnded :
    (dm : DeviceManager) (server : Server) (item item' : Item) (w v : ScanWorker)
    (calls : List Call)
    → run_item dm server item w ≡ some (item', v, calls)
    → IsReset v × HasEnded item' v calls
unfolding run_item process_instructions
run_item-HasEnded dm server item item' w v calls e =
    let (begun, u) = activate (record item { is_active = true }) (record w { max_point_id = 0 }) in
    subst EndsWell e
      (finish-EndsWell dm server begun (run_instructions dm server begun.instructions u))
