-- ===== src/BecLib/Requests.antt =====
-- RequestItem and RequestStorage (bec_lib/bec_lib/request_items.py). The scan of a request, which
-- other storages find, is a parameter of the decision.
pub mod Arrivals
use bec.Prelude.{
  ℕ, String, Option, none, some, Bool, true, false, List, [], ◌∷◌, ◌==◌, string_eq, if◌then◌else◌,
  find,
}
use bec.Prelude.Deque
use bec.ScanServer.Messages.{ScanQueueMessage}

pub record RequestResponseMessage : Type 0 where
  pub accepted : Bool
  pub message : String
  pub rid : String

pub record RequestItem : Type 0 where
  pub request_id : String
  pub request : Option ScanQueueMessage
  pub response : Option RequestResponseMessage
  pub accepted : Option Bool
  pub decision_pending : Bool

abbrev pub max_requests : ℕ
max_requests = 50

-- `RequestStorage.storage`
abbrev pub RequestStorage : Type 0
RequestStorage = List RequestItem

-- `RequestItem.update_with_response`
unfoldable pub take_response : RequestResponseMessage → RequestItem → RequestItem
take_response msg it = record it {
  response = some msg;
  decision_pending = false;
  request_id = msg.rid;
  accepted = some msg.accepted;
}

-- `RequestItem.update_with_request`
unfoldable pub take_request : ScanQueueMessage → RequestItem → RequestItem
take_request msg it = record it { request = some msg; request_id = msg.metadata.rid }

-- The property `decision_pending`, with the item after it: a scan that is there has been accepted.
unfoldable pub is_decision_pending : Bool → RequestItem → Bool × RequestItem
is_decision_pending has_scan it =
    if it.decision_pending
    then (if has_scan
        then (false, record it { decision_pending = false; accepted = some true })
        else (true, it))
    else (false, it)

unfoldable pub from_response : RequestResponseMessage → RequestItem
from_response msg = record {
  request_id = msg.rid;
  request = none;
  response = some msg;
  accepted = some msg.accepted;
  decision_pending = false;
}

unfoldable pub from_request : ScanQueueMessage → RequestItem
from_request msg = record {
  request_id = msg.metadata.rid;
  request = some msg;
  response = none;
  accepted = none;
  decision_pending = true;
}

abbrev pub has_id : String → RequestItem → Bool
has_id rid it = it.request_id == rid

unfoldable pub find_request_by_id : String → RequestStorage → Option RequestItem
find_request_by_id rid s = find (has_id rid) s

-- Changes the item that `find_request_by_id` finds.
unfoldable pub update_found : String → (RequestItem → RequestItem) → RequestStorage → RequestStorage
update_found rid f [] = []
update_found rid f (it ∷ s) = if has_id rid it then f it ∷ s else it ∷ update_found rid f s

-- `RequestStorage.update_with_response`: the response may come before the request.
unfoldable pub update_with_response : RequestResponseMessage → RequestStorage → RequestStorage
unfolding find_request_by_id update_found take_response from_response
update_with_response msg s = elim (find_request_by_id msg.rid s) [
  | some it ↦ update_found msg.rid (take_response msg) s
  | none ↦ Deque.append max_requests s (from_response msg)
]

-- `RequestStorage.update_with_request`, which drops a request without an id.
unfoldable pub update_with_request : ScanQueueMessage → RequestStorage → RequestStorage
unfolding find_request_by_id update_found take_request from_request
update_with_request msg s =
    if msg.metadata.rid == "" then s else elim (find_request_by_id msg.metadata.rid s) [
      | some it ↦ update_found msg.metadata.rid (take_request msg) s
      | none ↦ Deque.append max_requests s (from_request msg)
    ]
