-- ===== src/Tests/Storages.antt =====
-- The storages of queue items and of scans at concrete runs (bec_lib/bec_lib/queue_items.py,
-- bec_lib/bec_lib/scan_items.py).
use bec.Prelude.{none, some, true, false, List, [], ◌∷◌, ◌≡◌, refl, arith, All}
use bec.BecLib.QueueItems.{QueueInfo, Redis, queue_item, find_queue_item_by_scan_id}
use bec.BecLib.QueueItems.Lookups.{
  find_queue_item_by_scan_id-fails, is_found, is_attribute_error, has_stored_scan,
}
use bec.BecLib.ScanItems.{ScanItem, find_scan_by_id, scan_item, update_with_queue_status}
use bec.BecLib.ScanItems.Arrivals.{
  update_with_queue_status-is_stored, is_stored, IsUnique, announced_scans,
}

abbrev running : QueueInfo
running = record {
  queue_id = "q1";
  request_blocks = "r1" ∷ "r2" ∷ [];
  status = "RUNNING";
  active_request_block = some "r1";
  is_scan = true ∷ false ∷ [];
  scans = (some "s1", some 4) ∷ (none, none) ∷ [];
}

abbrev pending : QueueInfo
pending = record running {
  queue_id = "q2";
  status = "PENDING";
  is_scan = true ∷ [];
  scans = (some "s2", some 5) ∷ [];
}

abbrev redis : Redis
redis = record { scan_queue_status = some (running ∷ pending ∷ []); scan_queue_history = [] }

abbrev stored : List ScanItem
stored = scan_item "q1" (some 4) (some "s1") "RUNNING" ∷ []

find_queue_item_by_scan_id-fails_example :
    (is_found (
        find_queue_item_by_scan_id redis
          (some (running ∷ pending ∷ []))
          (is_stored stored)
          (queue_item running ∷ queue_item pending ∷ []))
      ≡ false)
    × (is_attribute_error (
          find_queue_item_by_scan_id redis
            (some (running ∷ pending ∷ []))
            (is_stored stored)
            (queue_item running ∷ queue_item pending ∷ []))
        ≡ has_stored_scan redis
            (running ∷ pending ∷ [])
            (is_stored stored)
            (queue_item running ∷ queue_item pending ∷ []))
find_queue_item_by_scan_id-fails_example =
    find_queue_item_by_scan_id-fails redis (running ∷ pending ∷ []) (is_stored stored)
      (queue_item running ∷ queue_item pending ∷ [])

stored-IsUnique : IsUnique stored
unfolding find_scan_by_id scan_item
stored-IsUnique = (refl, tt)

update_with_queue_status-is_stored_example :
    All
      (λ s. is_stored (update_with_queue_status (running ∷ pending ∷ []) stored) s.0 ≡ true)
      (announced_scans (running ∷ pending ∷ []))
    × All
        (λ s. is_stored (update_with_queue_status (running ∷ pending ∷ []) stored) s.scan_id ≡ true)
        stored
    × IsUnique (update_with_queue_status (running ∷ pending ∷ []) stored)
update_with_queue_status-is_stored_example =
    update_with_queue_status-is_stored (running ∷ pending ∷ []) stored stored-IsUnique (omega arith)
