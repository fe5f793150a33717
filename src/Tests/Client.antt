-- ===== src/Tests/Client.antt =====
-- The client's alarms and callbacks at work (bec_lib/bec_lib).
use bec.Prelude.{
  ℕ, ◌≡◌, refl, none, some, true, false, List, [], ◌∷◌, ◌++◌, if◌then◌else◌, not, keep, length, map,
  nat_eq, ◌==◌, arith,
}
use bec.Prelude.Deque
use bec.Prelude.Dict.{lookup, has}
use bec.BecLib.Alarms.{
  AlarmMessage, AlarmHandler, Alarms, alarm_handler, add_alarm, fresh, get_unhandled_alarms,
  is_unhandled, raise_alarms,
}
use bec.BecLib.Alarms.Stack.{IsWellFormed, drain, get_alarm-get_unhandled_alarms}
use bec.BecLib.Alarms.Reach.{Reaches, starts, goes_on, adds, raises, Reaches-IsWellFormed}
use bec.BecLib.Callbacks.{
  EventType, CallbackEntry, CallbackHandler, callback_handler, register, enter, exit, poll,
  poll_pending, max_pending, event_type,
}
use bec.BecLib.Callbacks.Ids
use bec.BecLib.Callbacks.Ids.{register-IsWellFormed, exit-enter}
use bec.BecLib.Callbacks.Polling.{
  drained, pending_calls, poll-pending_calls, run_entries, last_of, poll_pending-run_entries,
}
use bec.ScanServer.Messages.{ScanQueueMessage}
use bec.BecLib.Requests.{
  RequestResponseMessage, find_request_by_id, update_with_response, update_with_request,
}
use bec.BecLib.Requests.Arrivals.{decided, update_with_response-update_with_request}
use bec.Tests.Samples.{message}

-- What the runs below compute with.
runs : Unit {0}
unfolding alarm_handler add_alarm get_unhandled_alarms is_unhandled raise_alarms callback_handler
    register enter exit poll lookup has
runs = tt

abbrev severe : AlarmMessage
severe = record { severity = 2; alarm_type = "LimitError"; source = "samx"; content = "limit" }

abbrev alarmed : AlarmHandler
unfolding alarm_handler add_alarm
alarmed = elim (add_alarm severe alarm_handler) [ none ↦ alarm_handler | some h ↦ h ]

abbrev way : Reaches alarmed
unfolding runs
way = goes_on starts (adds severe refl)

Reaches-IsWellFormed_example : IsWellFormed (raise_alarms Alarms.major alarmed).1
unfolding runs
Reaches-IsWellFormed_example = Reaches-IsWellFormed (goes_on way (raises Alarms.major))

get_alarm-get_unhandled_alarms_example :
    drain 2 (fresh Alarms.minor) alarmed
    ≡ some (
      get_unhandled_alarms Alarms.minor alarmed,
      record alarmed {
        alarms_stack =
            keep (λ r. not (is_unhandled Alarms.minor alarmed.store r)) alarmed.alarms_stack;
      },
    )
unfolding runs Deque.append_left
get_alarm-get_unhandled_alarms_example =
    get_alarm-get_unhandled_alarms 2 Alarms.minor alarmed (Reaches-IsWellFormed way) (omega arith)

abbrev empty_handler : CallbackHandler ℕ
unfolding callback_handler
empty_handler = callback_handler

abbrev empty_IsWellFormed : Ids.IsWellFormed empty_handler
unfolding runs
empty_IsWellFormed = record { dict = tt; counted = tt }

register-IsWellFormed_example :
    (id : ℕ) × (h : CallbackHandler ℕ) × (register "scan_status" 7 true empty_handler
      ≡ some (id, h))
    × (has id empty_handler.callbacks ≡ false)
    × ((j : ℕ)
        → lookup j h.callbacks ≡ (
            if id == j
            then some (record {
              id = id;
              event_type = EventType.scan_status;
              func = 7;
              sync = true;
              queue = [];
            })
            else lookup j empty_handler.callbacks))
    × Ids.IsWellFormed h
unfolding runs event_type
register-IsWellFormed_example =
    register-IsWellFormed "scan_status" EventType.scan_status 7 true empty_handler refl
      empty_IsWellFormed

abbrev entered : List ℕ × CallbackHandler ℕ
unfolding enter
entered = elim (enter "scan_status" (some 7 ∷ none ∷ some 8 ∷ []) false empty_handler) [
  | none ↦ ([], empty_handler)
  | some r ↦ r
]

exit-enter_example : (exit entered.0 entered.1).callbacks ≡ empty_handler.callbacks
unfolding runs event_type
exit-enter_example =
    exit-enter "scan_status" EventType.scan_status (some 7 ∷ none ∷ some 8 ∷ []) false empty_handler
      entered.1 entered.0 refl empty_IsWellFormed refl

abbrev waiting : CallbackEntry ℕ
waiting = record {
  id = 1;
  event_type = EventType.scan_segment;
  func = 7;
  sync = true;
  queue = 4 ∷ [];
}

poll_pending-run_entries_example :
    let c = run_entries (5 ∷ 6 ∷ []) waiting in
    poll_pending (length c.queue) c ≡ (
      record waiting { queue = [] },
      map (λ args. (waiting.func, args)) (last_of max_pending (waiting.queue ++ 5 ∷ 6 ∷ [])),
    )
poll_pending-run_entries_example = poll_pending-run_entries (5 ∷ 6 ∷ []) waiting refl (omega arith)

abbrev pending : CallbackHandler ℕ
pending = record { callbacks = (1, waiting) ∷ []; id_counter = 1; calls = [] }

abbrev asking : ScanQueueMessage
asking = message "line_scan" none none

abbrev accepting : RequestResponseMessage
accepting = record { accepted = true; message = ""; rid = "rid" }

update_with_response-update_with_request_example :
    (find_request_by_id "rid" (update_with_response accepting (update_with_request asking []))
      ≡ some (decided asking accepting))
    × (find_request_by_id "rid" (update_with_request asking (update_with_response accepting []))
        ≡ some (decided asking accepting))
unfolding find_request_by_id
update_with_response-update_with_request_example =
    update_with_response-update_with_request asking accepting [] refl refl refl

poll-pending_calls_example : poll pending ≡ record pending {
  callbacks = drained pending.callbacks;
  calls = pending.calls ++ pending_calls pending.callbacks;
}
poll-pending_calls_example = poll-pending_calls pending
