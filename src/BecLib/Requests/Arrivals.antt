-- ===== src/BecLib/Requests/Arrivals.antt =====
-- A request and its response in either order, and the ids of the stored requests
-- (bec_lib/bec_lib/request_items.py).
use bec.Prelude.{
  ℕ, zero, suc, ◌-◌, ◌≤◌, String, ◌≡◌, inl, inr, none, some, Bool, true, false, [], ◌∷◌, ◌++◌, ◌==◌,
  string_eq, find, length, drop, arith, Bool-cases, beq_refl, subst, ◌∙◌, ap,
}
use bec.Prelude.Deque.{append}
use bec.ScanServer.Messages.{ScanQueueMessage}
use bec.BecLib.Requests.{
  RequestResponseMessage, RequestItem, RequestStorage, max_requests, take_response, take_request,
  from_response, from_request, has_id, find_request_by_id, update_found, update_with_response,
  update_with_request,
}

find-drop :
    (p : RequestItem → Bool) (n : ℕ) (s : RequestStorage) (it : RequestItem)
    → n ≤ length s
    → find p s ≡ none
    → p it ≡ true
    → find p (drop n (s ++ it ∷ [])) ≡ some it
find-drop p zero [] it l f h = ground arith
find-drop p (suc n) [] it l f h = elim l [ ]
find-drop p zero (x ∷ s) it l f h = ground (arith, find-drop p zero s it (omega arith))
find-drop p (suc n) (x ∷ s) it l f h = find-drop p n s it (omega arith) (ground arith) h

-- A new item that is appended is the one found.
find_request_by_id-append :
    (rid : String) (s : RequestStorage) (it : RequestItem)
    → find_request_by_id rid s ≡ none
    → has_id rid it ≡ true
    → find_request_by_id rid (append max_requests s it) ≡ some it
unfolding find_request_by_id append
find_request_by_id-append rid s it f h =
    find-drop (has_id rid) (suc (length s) - max_requests) s it (omega arith) f h

find_request_by_id-update_found :
    (rid : String) (f : RequestItem → RequestItem) (s : RequestStorage) (it : RequestItem)
    → find_request_by_id rid s ≡ some it
    → has_id rid (f it) ≡ true
    → find_request_by_id rid (update_found rid f s) ≡ some (f it)
unfolding find_request_by_id update_found
find_request_by_id-update_found rid f [] it e h = cc
find_request_by_id-update_found rid f (x ∷ s) it e h = elim (Bool-cases (has_id rid x)) [
  | inl y ↦ ground arith
  | inr y ↦ ground (arith, find_request_by_id-update_found rid f s it)
]

-- What is known of a request once both messages have arrived.
abbrev pub decided : ScanQueueMessage → RequestResponseMessage → RequestItem
decided request response = record {
  request_id = response.rid;
  request = some request;
  response = some response;
  accepted = some response.accepted;
  decision_pending = false;
}

update_with_response_new :
    (msg : RequestResponseMessage) (s : RequestStorage)
    → find_request_by_id msg.rid s ≡ none
    → find_request_by_id msg.rid (update_with_response msg s) ≡ some (from_response msg)
unfolding update_with_response from_response
update_with_response_new msg s f =
    rw (f, update_with_response)
      (find_request_by_id-append msg.rid s (from_response msg) f (beq_refl msg.rid))

update_with_response_found :
    (msg : RequestResponseMessage) (s : RequestStorage) (it : RequestItem)
    → find_request_by_id msg.rid s ≡ some it
    → find_request_by_id msg.rid (update_with_response msg s) ≡ some (take_response msg it)
unfolding update_with_response take_response
update_with_response_found msg s it f =
    rw (f, update_with_response)
      (find_request_by_id-update_found msg.rid (take_response msg) s it f (beq_refl msg.rid))

update_with_request_new :
    (msg : ScanQueueMessage) (s : RequestStorage)
    → (msg.metadata.rid == "") ≡ false
    → find_request_by_id msg.metadata.rid s ≡ none
    → find_request_by_id msg.metadata.rid (update_with_request msg s) ≡ some (from_request msg)
unfolding update_with_request from_request
update_with_request_new msg s n f =
    rw (n, f, update_with_request)
      (find_request_by_id-append msg.metadata.rid s (from_request msg) f
        (beq_refl msg.metadata.rid))

update_with_request_found :
    (msg : ScanQueueMessage) (s : RequestStorage) (it : RequestItem)
    → (msg.metadata.rid == "") ≡ false
    → find_request_by_id msg.metadata.rid s ≡ some it
    → find_request_by_id msg.metadata.rid (update_with_request msg s) ≡ some (take_request msg it)
unfolding update_with_request take_request
update_with_request_found msg s it n f =
    rw (n, f, update_with_request)
      (find_request_by_id-update_found msg.metadata.rid (take_request msg) s it f
        (beq_refl msg.metadata.rid))

-- Whether a new request with an id that is not empty arrives before its response or after it, the
-- storage then has the same item under its id, with both messages and the decision.
pub update_with_response-update_with_request :
    (request : ScanQueueMessage) (response : RequestResponseMessage) (s : RequestStorage)
    → request.metadata.rid ≡ response.rid
    → (response.rid == "") ≡ false
    → find_request_by_id response.rid s ≡ none
    → (find_request_by_id response.rid
          (update_with_response response (update_with_request request s))
        ≡ some (decided request response))
      × (find_request_by_id response.rid
            (update_with_request request (update_with_response response s))
          ≡ some (decided request response))
unfolding take_response take_request from_response from_request
update_with_response-update_with_request request response s e n f =
    let new : find_request_by_id response.rid (update_with_request request s)
        ≡ some (from_request request) =
      subst
        (λ r. find_request_by_id r (update_with_request request s) ≡ some (from_request request)) e
        (update_with_request_new request s (rw e n) (rw e f)) in
    let old = update_with_response_new response s f in
    let last : find_request_by_id response.rid
          (update_with_request request (update_with_response response s))
        ≡ some (take_request request (from_response response)) =
      subst
        (λ r.
          find_request_by_id r (update_with_request request (update_with_response response s))
          ≡ some (take_request request (from_response response)))
        e
        (update_with_request_found request (update_with_response response s)
          (from_response response) (rw e n) (rw e old)) in
    (
      update_with_response_found response (update_with_request request s) (from_request request)
          new,
      last
          ∙ ap
              (λ r. some (record {
                request_id = r;
                request = some request;
                response = some response;
                accepted = some response.accepted;
                decision_pending = false;
              }))
              e,
    )
