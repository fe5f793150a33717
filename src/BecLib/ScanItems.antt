-- ===== src/BecLib/ScanItems.antt =====
-- ScanItem and ScanStorage (bec_lib/bec_lib/scan_items.py). Times, messages and report instructions
-- are given by their identity. The callbacks of a message are recorded calls, in their order.
pub mod Arrivals
use bec.Prelude.{
  ℕ, String, Option, none, some, Bool, true, false, List, [], ◌∷◌, ◌++◌, ◌==◌, string_eq, option_eq,
  nat_eq, if◌then◌else◌, find, exists, contains, keep, not, is_some, truthy,
}
use bec.Prelude.Dict.{Dict, insert}
use bec.Prelude.Deque
use bec.BecLib.QueueItems.{QueueInfo}

pub record ScanItem : Type 0 where
  pub queue_id : String
  pub scan_number : Option ℕ
  pub scan_id : Option String
  pub status : String
  pub segments : Dict ℕ ℕ
  pub open_scan_defs : List String
  pub open_queue_group : Option String
  pub num_points : Option ℕ
  pub start_time : Option ℕ
  pub end_time : Option ℕ
  pub scan_report_instructions : Option ℕ

-- A call of callbacks: the event, with the message's identity.
pub data Emitted : Type 0 where
  scan_segment scan_status : ℕ → Emitted

pub record ScanStorage : Type 0 where
  pub storage : List ScanItem
  pub last_scan_number : ℕ
  pub emitted : List Emitted

pub record StatusInfo : Type 0 where
  pub scan_number : Option ℕ
  pub num_points : Option ℕ
  pub scan_report_instructions : Option ℕ
  pub scan_def_id : Option String
  pub queue_group : Option String

pub record ScanStatusMessage : Type 0 where
  pub scan_id : Option String
  pub status : String
  pub timestamp : ℕ
  pub info : StatusInfo
  pub identity : ℕ

abbrev pub max_scans : ℕ
max_scans = 50

-- What an update comes to: it waits in a loop where there is no such scan.
pub data Updated : Type 0 where
  updated : ScanStorage → Updated
  key_error : ScanStorage → Updated
  waits : ScanStorage → Updated

abbrev pub has_scan_id : Option String → ScanItem → Bool
has_scan_id i scan = scan.scan_id == i

-- `find_scan_by_ID`
unfoldable pub find_scan_by_id : Option String → List ScanItem → Option ScanItem
find_scan_by_id i scans = find (has_scan_id i) scans

-- Changes the item that `find_scan_by_id` finds.
unfoldable pub change_scan : Option String → (ScanItem → ScanItem) → List ScanItem → List ScanItem
change_scan i f [] = []
change_scan i f (scan ∷ scans) =
    if has_scan_id i scan then f scan ∷ scans else scan ∷ change_scan i f scans

-- Python's truth of a number that may be None.
abbrev pub is_number : Option ℕ → Bool
is_number none = false
is_number (some n) = if n == 0 then false else true

abbrev pub or_other : {A : Type 0} → Option A → Option A → Option A
or_other none o = o
or_other (some a) o = some a

-- The timestamps of a status.
unfoldable pub take_times : ScanStatusMessage → ScanItem → ScanItem
take_times msg scan =
    if msg.status == "open"
    then record scan { start_time = some msg.timestamp }
    else if msg.status == "closed"
    then record scan { end_time = some msg.timestamp }
    else scan

-- The other fields of a status, but for the scan definitions.
unfoldable pub take_status : ScanStatusMessage → ScanItem → ScanItem
unfolding take_times
take_status msg scan = record (take_times msg scan) {
  status = msg.status;
  num_points = if is_number msg.info.num_points then msg.info.num_points else scan.num_points;
  scan_number = or_other scan.scan_number msg.info.scan_number;
  scan_report_instructions = msg.info.scan_report_instructions;
}

-- set.remove and set.add; the removal of a member that is not there is a KeyError.
unfoldable pub take_scan_def : ScanStatusMessage → ScanItem → Option ScanItem
take_scan_def msg scan = elim (msg.info.scan_def_id) [
  | none ↦ some scan
  | some d ↦
      if d == ""
      then some scan
      else if msg.status == "open"
      then some (record scan {
        open_scan_defs =
            if contains d scan.open_scan_defs then scan.open_scan_defs else d ∷ scan.open_scan_defs;
      })
      else if contains d scan.open_scan_defs
      then some (record scan { open_scan_defs = keep (λ e. not (e == d)) scan.open_scan_defs })
      else none
]

abbrev pub take_number : Option ℕ → ScanStorage → ScanStorage
take_number n s =
    if is_number n
    then record s { last_scan_number = elim n [ none ↦ s.last_scan_number | some k ↦ k ] }
    else s

abbrev pub write_scan : Option String → ScanItem → ScanStorage → ScanStorage
write_scan i scan s = record s { storage = change_scan i (λ _. scan) s.storage }

-- What `update_with_scan_status` does with the scan that it has found.
unfoldable pub update_scan : ScanStatusMessage → ScanItem → ScanStorage → Updated
unfolding change_scan take_status take_scan_def
update_scan msg scan s =
    let scan' = take_status msg scan in
    elim (take_scan_def msg scan') [
      | none ↦ key_error (write_scan msg.scan_id scan' s)
      | some scan'' ↦
          let s' =
            write_scan msg.scan_id (record scan'' { open_queue_group = msg.info.queue_group }) s in
          updated (record s' { emitted = s'.emitted ++ scan_status msg.identity ∷ [] })
    ]

unfoldable pub update_with_scan_status : ScanStatusMessage → ScanStorage → Updated
unfolding find_scan_by_id update_scan
update_with_scan_status msg s =
    if not (truthy msg.scan_id)
    then updated s
    else let s' = take_number msg.info.scan_number s in
      elim (find_scan_by_id msg.scan_id s'.storage) [
        | none ↦ waits s'
        | some scan ↦ update_scan msg scan s'
      ]

-- add_scan_segment: the scan, the point and the message.
unfoldable pub add_scan_segment : Option String → ℕ → ℕ → ScanStorage → Updated
unfolding find_scan_by_id change_scan insert
add_scan_segment scan_id point msg s = elim (find_scan_by_id scan_id s.storage) [
  | none ↦ waits s
  | some scan ↦ updated (record s {
    storage =
        change_scan scan_id (λ x. record x { segments = insert point msg x.segments }) s.storage;
    emitted = s.emitted ++ scan_segment msg ∷ [];
  })
]

-- A new ScanItem.
unfoldable pub scan_item : String → Option ℕ → Option String → String → ScanItem
scan_item queue_id scan_number scan_id status = record {
  queue_id = queue_id;
  scan_number = scan_number;
  scan_id = scan_id;
  status = status;
  segments = [];
  open_scan_defs = [];
  open_queue_group = none;
  num_points = none;
  start_time = none;
  end_time = none;
  scan_report_instructions = none;
}

unfoldable pub add_scan_item :
    String → Option ℕ → Option String → String → List ScanItem → List ScanItem
unfolding scan_item
add_scan_item queue_id scan_number scan_id status scans =
    Deque.append max_scans scans (scan_item queue_id scan_number scan_id status)

-- The loop over the scans of a queue item, each with its number.
unfoldable pub add_scans :
    QueueInfo → List (Option String × Option ℕ) → List ScanItem → List ScanItem
unfolding find_scan_by_id add_scan_item
add_scans q [] scans = scans
add_scans q ((i, n) ∷ rest) scans =
    if is_some (find_scan_by_id i scans)
    then add_scans q rest scans
    else add_scans q rest (add_scan_item q.queue_id n i q.status scans)

-- `update_with_queue_status`, on the items of the primary queue.
unfoldable pub update_with_queue_status : List QueueInfo → List ScanItem → List ScanItem
unfolding add_scans
update_with_queue_status [] scans = scans
update_with_queue_status (q ∷ queue_info) scans =
    if exists (λ b. b) q.is_scan
    then update_with_queue_status queue_info (add_scans q q.scans scans)
    else update_with_queue_status queue_info scans
