-- ===== src/BecLib/ScanItems/Arrivals.antt =====
-- Which scans ScanStorage holds after a queue message (bec_lib/bec_lib/scan_items.py).
use bec.Prelude.{
  ℕ, suc, ◌+◌, ◌≤◌, String, Option, Bool, true, false, ◌||◌, List, [], ◌∷◌, ◌++◌, ◌≡◌, refl,
  if◌then◌else◌, exists, length, length-append, arith, Bool-cases, inl, inr, All, All-append,
  All-mono, is_some, string_eq, option_eq, option_beq_iff, beq_refl,
}
use bec.Prelude.Deque
use bec.BecLib.QueueItems.{QueueInfo}
use bec.BecLib.ScanItems.{
  ScanItem, max_scans, has_scan_id, find_scan_by_id, scan_item, add_scan_item, add_scans,
  update_with_queue_status,
}

-- Is there a scan with this id?
abbrev pub is_stored : List ScanItem → Option String → Bool
is_stored scans i = is_some (find_scan_by_id i scans)

-- No two scans have one id.
abbrev pub IsUnique : List ScanItem → Type 0
IsUnique [] = Unit {0}
IsUnique (scan ∷ scans) = (is_stored scans scan.scan_id ≡ false) × IsUnique scans

-- The scans of the queue items that have one, by their ids, and how many there are.
abbrev pub announced_scans : List QueueInfo → List (Option String × Option ℕ)
announced_scans [] = []
announced_scans (q ∷ queue_info) =
    if exists (λ b. b) q.is_scan
    then q.scans ++ announced_scans queue_info
    else announced_scans queue_info

is_stored-append :
    (scans : List ScanItem) (scan : ScanItem) (i : Option String)
    → is_stored (scans ++ scan ∷ []) i ≡ (is_stored scans i || has_scan_id i scan)
unfolding find_scan_by_id
is_stored-append [] scan i = ground arith
is_stored-append (s ∷ scans) scan i = ground (arith, is_stored-append scans scan i)

append-IsUnique :
    (scans : List ScanItem) (scan : ScanItem)
    → IsUnique scans
    → is_stored scans scan.scan_id ≡ false
    → IsUnique (scans ++ scan ∷ [])
unfolding find_scan_by_id
append-IsUnique [] scan h e = (refl, tt)
append-IsUnique (s ∷ scans) scan h e = ground (
  arith,
  is_stored-append scans scan s.scan_id,
  option_beq_iff s.scan_id scan.scan_id,
  option_beq_iff scan.scan_id s.scan_id,
  append-IsUnique scans scan h.1,
)

-- What one more scan does, where there is room for it.
add_scan_item-eq :
    (q t : String) (i : Option String) (n : Option ℕ) (scans : List ScanItem)
    → suc (length scans) ≤ max_scans
    → add_scan_item q n i t scans ≡ scans ++ scan_item q n i t ∷ []
unfolding add_scan_item
add_scan_item-eq q t i n scans h = Deque.append_room max_scans scans (scan_item q n i t) h

-- The scans that an update has led to: the old ones are still there, the new ones are too, no id
-- stands twice, and it is no longer than it has to be.
record Holds (before : List ScanItem) (new : List (Option String × Option ℕ)) (now : List ScanItem)
    : Type 0 where
  unique : IsUnique now
  keeps : (i : Option String) → is_stored before i ≡ true → is_stored now i ≡ true
  has_new : All (λ s. is_stored now s.0 ≡ true) new
  no_longer : length now ≤ length before + length new

add_scans-Holds :
    (q : QueueInfo) (l : List (Option String × Option ℕ)) (scans : List ScanItem)
    → IsUnique scans
    → length scans + length l ≤ max_scans
    → Holds scans l (add_scans q l scans)
unfolding add_scans scan_item
add_scans-Holds q [] scans u h = record {
  unique = u;
  keeps = λ i e. e;
  has_new = tt;
  no_longer = omega arith;
}
add_scans-Holds q ((i, n) ∷ l) scans u h = elim (Bool-cases (is_stored scans i)) [
  | inl e ↦
      let r = add_scans-Holds q l scans u (omega arith) in
      rw e (record {
        unique = r.unique;
        keeps = r.keeps;
        has_new = (r.keeps i e, r.has_new);
        no_longer = omega (arith, r.no_longer);
      })
  | inr e ↦
      let scan = scan_item q.queue_id n i q.status in
      let room : suc (length scans) ≤ max_scans = omega arith in
      let eq = add_scan_item-eq q.queue_id q.status i n scans room in
      let u' : IsUnique (scans ++ scan ∷ []) = append-IsUnique scans scan u e in
      let r =
        add_scans-Holds q l (scans ++ scan ∷ []) u'
          (omega (arith, length-append scans (scan ∷ []))) in
      rw (e, eq)
        (record {
          unique = r.unique;
          keeps = λ j t. r.keeps j (ground (arith, is_stored-append scans scan j));
          has_new =
              (r.keeps i (ground (arith, is_stored-append scans scan i, beq_refl i)), r.has_new);
          no_longer = omega (arith, r.no_longer, length-append scans (scan ∷ []));
        })
]

Holds-trans :
    (l m : List (Option String × Option ℕ)) (a b c : List ScanItem)
    → Holds a l b
    → Holds b m c
    → Holds a (l ++ m) c
Holds-trans l m a b c h k = record {
  unique = k.unique;
  keeps = λ i e. k.keeps i (h.keeps i e);
  has_new =
      All-append (λ s. is_stored c s.0 ≡ true) l m
        (All-mono (λ s. is_stored b s.0 ≡ true) (λ s. is_stored c s.0 ≡ true) (λ s e. k.keeps s.0 e)
          l h.has_new)
        k.has_new;
  no_longer = omega (arith, h.no_longer, k.no_longer, length-append l m);
}

-- One item of a message and the rest, by whether the item has scans.
one_info-Holds :
    (b : Bool) (q : QueueInfo) (l : List (Option String × Option ℕ))
    (rest : List ScanItem → List ScanItem) (scans : List ScanItem)
    → ((now : List ScanItem)
        → IsUnique now
        → length now + length l ≤ max_scans
        → Holds now l (rest now))
    → IsUnique scans
    → length scans + length (if b then q.scans ++ l else l) ≤ max_scans
    → Holds scans
        (if b then q.scans ++ l else l)
        (if b then rest (add_scans q q.scans scans) else rest scans)
one_info-Holds false q l rest scans ih u h = ih scans u h
one_info-Holds true q l rest scans ih u h =
    let first = add_scans-Holds q q.scans scans u (omega (arith, length-append q.scans l)) in
    Holds-trans q.scans l scans (add_scans q q.scans scans) _ first (
      ih (add_scans q q.scans scans) first.unique
        (omega (arith, first.no_longer, length-append q.scans l)))

-- The scans of a whole message.
update_with_queue_status-Holds :
    (queue_info : List QueueInfo) (scans : List ScanItem)
    → IsUnique scans
    → length scans + length (announced_scans queue_info) ≤ max_scans
    → Holds scans (announced_scans queue_info) (update_with_queue_status queue_info scans)
unfolding update_with_queue_status
update_with_queue_status-Holds [] scans u h = record {
  unique = u;
  keeps = λ i e. e;
  has_new = tt;
  no_longer = omega arith;
}
update_with_queue_status-Holds (q ∷ queue_info) scans u h =
    one_info-Holds (exists (λ b. b) q.is_scan) q (announced_scans queue_info)
      (update_with_queue_status queue_info) scans (update_with_queue_status-Holds queue_info) u h

-- Each scan is stored under its id.
all_stored : (scans : List ScanItem) → All (λ s. is_stored scans s.scan_id ≡ true) scans
unfolding find_scan_by_id
all_stored [] = tt
all_stored (s ∷ scans) = (
  ground (arith, beq_refl s.scan_id),
  All-mono (λ t. is_stored scans t.scan_id ≡ true) (λ t. is_stored (s ∷ scans) t.scan_id ≡ true)
      (λ t e. ground (arith, e)) scans (all_stored scans),
)

-- Where no scan id is stored twice and the storage has room for all scans that a queue message names,
-- every scan of a queue item that has scans is stored after the message, all scans that were stored
-- still are, and no scan id is stored twice.
pub update_with_queue_status-is_stored :
    (queue_info : List QueueInfo) (scans : List ScanItem)
    → IsUnique scans
    → length scans + length (announced_scans queue_info) ≤ max_scans
    → All
        (λ s. is_stored (update_with_queue_status queue_info scans) s.0 ≡ true)
        (announced_scans queue_info)
      × All (λ s. is_stored (update_with_queue_status queue_info scans) s.scan_id ≡ true) scans
      × IsUnique (update_with_queue_status queue_info scans)
update_with_queue_status-is_stored queue_info scans u h =
    let r = update_with_queue_status-Holds queue_info scans u h in
    (
      r.has_new,
      All-mono (λ s. is_stored scans s.scan_id ≡ true)
          (λ s. is_stored (update_with_queue_status queue_info scans) s.scan_id ≡ true)
          (λ s e. r.keeps s.scan_id e) scans (all_stored scans),
      r.unique,
    )
