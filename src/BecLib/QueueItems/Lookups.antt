-- ===== src/BecLib/QueueItems/Lookups.antt =====
-- What the searches of QueueStorage find (bec_lib/bec_lib/queue_items.py).
use bec.Prelude.{
  ℕ, suc, ◌≤◌, String, Option, none, some, Bool, true, false, ◌||◌, List, [], ◌∷◌, ◌≡◌, refl,
  if◌then◌else◌, exists, length, length-take, arith, Option-cases, inl, inr,
}
use bec.BecLib.QueueItems.{
  QueueInfo, QueueItem, Redis, Found, found, not_found, type_error, attribute_error, after,
  update_queue_item, find_in_buffer, update_with_buffer, compare_scans, find_queue_item_by_scan_id,
  queue_history,
}

abbrev pub is_found : Found → Bool
is_found (found item items) = true
is_found _ = false

abbrev pub is_attribute_error : Found → Bool
is_attribute_error (attribute_error items) = true
is_attribute_error _ = false

-- The scans of an item after its update from the buffer.
unfoldable pub updated_scans : Redis → List QueueInfo → QueueItem → List (Option String)
updated_scans redis current item = elim (update_with_buffer redis (some current) item) [
  | none ↦ []
  | some item' ↦ item'.scan_ids
]

-- Does an item have a scan that the scan storage holds?
unfoldable pub has_stored_scan :
    Redis → List QueueInfo → (Option String → Bool) → List QueueItem → Bool
unfolding updated_scans
has_stored_scan redis current is_stored [] = false
has_stored_scan redis current is_stored (item ∷ items) =
    exists is_stored (updated_scans redis current item)
    || has_stored_scan redis current is_stored items

compare_scans-cases :
    (is_stored : Option String → Bool) (is : List (Option String))
    → compare_scans is_stored is ≡ (if exists is_stored is then none else some false)
unfolding compare_scans
compare_scans-cases is_stored [] = refl
compare_scans-cases is_stored (i ∷ is) = ground (arith, compare_scans-cases is_stored is)

after-is_found : (item : QueueItem) (r : Found) → is_found (after item r) ≡ is_found r
after-is_found item (found x items) = refl
after-is_found item (not_found items) = refl
after-is_found item (type_error items) = refl
after-is_found item (attribute_error items) = refl

after-is_attribute_error :
    (item : QueueItem) (r : Found) → is_attribute_error (after item r) ≡ is_attribute_error r
after-is_attribute_error item (found x items) = refl
after-is_attribute_error item (not_found items) = refl
after-is_attribute_error item (type_error items) = refl
after-is_attribute_error item (attribute_error items) = refl

-- An update from a queue message that is there always succeeds.
update_with_buffer-some :
    (redis : Redis) (current : List QueueInfo) (item : QueueItem)
    → (item' : QueueItem) × (update_with_buffer redis (some current) item ≡ some item')
unfolding update_with_buffer
update_with_buffer-some redis current item =
    elim (Option-cases (find_in_buffer redis current item.queue_id)) [
      | inl e ↦ (item, rw (e, update_with_buffer) refl)
      | inr (q, e) ↦ (update_queue_item q item, rw (e, update_with_buffer) refl)
    ]

-- The search for the queue item of a scan never finds one, whatever is stored: once there is a queue
-- message, it ends with an AttributeError exactly when some item has a scan in the scan storage.
pub find_queue_item_by_scan_id-fails :
    (redis : Redis) (current : List QueueInfo) (is_stored : Option String → Bool)
    (items : List QueueItem)
    → (is_found (find_queue_item_by_scan_id redis (some current) is_stored items) ≡ false)
      × (is_attribute_error (find_queue_item_by_scan_id redis (some current) is_stored items)
          ≡ has_stored_scan redis current is_stored items)
unfolding find_queue_item_by_scan_id has_stored_scan updated_scans
find_queue_item_by_scan_id-fails redis current is_stored [] = (refl, refl)
find_queue_item_by_scan_id-fails redis current is_stored (item ∷ items) =
    let (item', e) = update_with_buffer-some redis current item in
    let rest = find_queue_item_by_scan_id redis (some current) is_stored items in
    ground (
      arith,
      e,
      compare_scans-cases is_stored item'.scan_ids,
      find_queue_item_by_scan_id-fails redis current is_stored items,
      after-is_found item' rest,
      after-is_attribute_error item' rest,
    )

-- A history that is asked for n entries has one more, if Redis holds as many.
length-queue_history :
    (n : ℕ) (redis : Redis) (l : List QueueInfo)
    → queue_history n redis ≡ some l
    → suc n ≤ length redis.scan_queue_history
    → length l ≡ suc n
unfolding queue_history
length-queue_history n redis l e h = ground (arith, length-take (suc n) redis.scan_queue_history)
