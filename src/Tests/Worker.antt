-- ===== src/Tests/Worker.antt =====
-- The scan guard and the scan worker at work (scan_server/scan_server).
use bec.Prelude.{
  Option, List, ℕ, String, ◌≡◌, refl, inl, none, some, true, false, [], ◌∷◌, ◌++◌, if◌then◌else◌,
  ◌==◌, string_eq, option_eq, nat_eq,
}
use bec.Prelude.Dict.{Dict, lookup, insert}
use bec.ScanServer.Messages.{DeviceInstructionMessage, Action}
use bec.ScanServer.Queue.Status.{InstructionQueueStatus}
use bec.ScanServer.Guard.{
  text, scalar, ScanRequest, Session, Check, request_response, scan_queue_insert,
  handle_scan_request,
}
use bec.ScanServer.Guard.Verdicts.{is_acceptable, is_none, handle_scan_request-is_acceptable}
use bec.ScanServer.Worker.State.{
  DeviceReply, Poll, ScanWorker, scan_worker, check_for_interruption, continues, scan_status,
  queue_status,
}
use bec.ScanServer.Worker.State.Interruption.{Checked, check_for_interruption-Checked}
use bec.ScanServer.Worker.Waiting.{
  DeviceManager, wait_for, wait_for_group, judge_read, judge_idle, judge_all, among, others,
  leave_group,
}
use bec.ScanServer.Worker.Waiting.Judgements.{AreAnswered}
use bec.ScanServer.Worker.Waiting.Answers.{wait_for_group-AreAnswered}
use bec.ScanServer.Worker.Waiting.Progress.{wait_for-continues}
use bec.ScanServer.Worker.Scans.{open_scan, close_scan, announce_scan, count_points}
use bec.ScanServer.Worker.Scans.Brackets.{
  info_of, last_point, closed, close_scan-open_scan, announce_scan-num_points,
}
use bec.ScanServer.Worker.Loop.{
  Item, Call, process_instructions, run_item, increase_scan_number, append_to_queue_history, abort,
}
use bec.ScanServer.Worker.Loop.Endings.{IsReset, HasEnded, run_item-HasEnded}
use bec.Tests.Samples.{message, no_metadata, no_parameter, server}

-- What the runs below compute with.
runs : Unit {0}
unfolding handle_scan_request check_for_interruption wait_for_group judge_read judge_idle judge_all
    open_scan process_instructions run_item scan_worker lookup insert
runs = tt

abbrev session : Session
session = record {
  devices = ("samx", true) ∷ ("samy", false) ∷ [];
  available_scans = some ("line_scan" ∷ "device_rpc" ∷ []);
}

abbrev request : ScanRequest
request = record {
  message = message "line_scan" none none;
  device = none;
  args = text "samx" ∷ scalar ∷ [];
}

handle_scan_request-is_acceptable_example :
    (status : Check) × (handle_scan_request session (some request)
      ≡ some (
          request_response status "rid"
          ∷ (if is_acceptable session request then scan_queue_insert request ∷ [] else [])))
    × (is_none status ≡ is_acceptable session request)
handle_scan_request-is_acceptable_example = handle_scan_request-is_acceptable session request

abbrev devices : DeviceManager
devices = record {
  devices = "samx" ∷ "samy" ∷ "eiger" ∷ [];
  enabled_devices = "samx" ∷ "eiger" ∷ [];
  detectors = "eiger" ∷ [];
  monitored_devices = λ p. "samx" ∷ [];
  baseline_devices = λ p. [];
}

-- A worker that is paused, goes on and is stopped.
abbrev paused : ScanWorker
unfolding scan_worker
paused = record scan_worker {
  statuses =
      InstructionQueueStatus.paused ∷ InstructionQueueStatus.running
      ∷ InstructionQueueStatus.stopped ∷ [];
}

check_for_interruption-Checked_example : Checked paused (check_for_interruption paused)
check_for_interruption-Checked_example = check_for_interruption-Checked paused

abbrev reply : DeviceReply
reply = record {
  success = true;
  status = 0;
  scan_id = some "scan-a";
  rid = some "rid";
  diid = some 3;
}

abbrev silent : Poll
silent d = none

abbrev answered : Poll
answered d = some reply

abbrev waiting : DeviceInstructionMessage
waiting = record {
  action = Action.wait;
  device = "samx" ∷ [];
  parameter = record no_parameter { wait_group = some "motors" };
  metadata = record no_metadata { scan_id = some "scan-a"; rid = some "rid"; diid = some 4 };
}

abbrev group : Dict String ℕ
group = ("samx", 3) ∷ ("samy", 2) ∷ []

abbrev worker : ScanWorker
unfolding scan_worker
worker = record scan_worker {
  status = InstructionQueueStatus.running;
  groups = ("motors", group) ∷ [];
  polls = silent ∷ answered ∷ [];
}

abbrev after_wait : ScanWorker
unfolding insert
after_wait = leave_group "motors" ("samx" ∷ []) group (record worker { polls = [] })

wait_for_group-AreAnswered_example :
    ((before : List Poll) × (poll : Poll) × (worker.polls ≡ before ++ poll ∷ after_wait.polls)
      × AreAnswered
          (λ r. r.status == 0)
          (λ r. r.status == 0)
          waiting.metadata
          poll
          (among ("samx" ∷ []) group))
    × (after_wait.groups ≡ insert "motors" (others ("samx" ∷ []) group) worker.groups)
unfolding runs
wait_for_group-AreAnswered_example =
    wait_for_group-AreAnswered devices waiting worker after_wait "motors" group ("samx" ∷ []) refl
      refl refl refl

wait_for-continues_example :
    wait_for
      (silent ∷ answered ∷ [])
      waiting
      ("samx" ∷ [])
      (judge_read waiting.metadata (("samx", 3) ∷ []))
      worker
    ≡ continues (record worker { polls = [] })
unfolding runs
wait_for-continues_example =
    wait_for-continues (silent ∷ []) [] answered (reply ∷ []) waiting ("samx" ∷ [])
      (judge_read waiting.metadata (("samx", 3) ∷ [])) worker (refl, refl) (inl refl, tt) refl refl

abbrev opening : DeviceInstructionMessage
opening = record {
  action = Action.open_scan;
  device = [];
  parameter = record no_parameter { num_points = 2; scan_motors = some ("samx" ∷ []) };
  metadata = record no_metadata { scan_id = some "scan-a"; scan_def_id = some "def" };
}

abbrev opened : ScanWorker
unfolding open_scan
opened = elim (open_scan devices server opening worker) [ continues u ↦ u | _ ↦ worker ]

close_scan-open_scan_example :
    let info = info_of server opening (count_points (last_point opening worker) 2) in
    (opened.sent ≡ scan_status worker.current_scan_id "open" info ∷ queue_status ∷ worker.sent)
    × (close_scan opening 1 opened ≡ closed (record info { num_points = some 2 }) opened)
unfolding runs
close_scan-open_scan_example =
    close_scan-open_scan devices server opening opening worker opened opened 1 refl refl refl refl
      refl

announce_scan-num_points_example :
    (announce_scan server opening (record worker { max_point_id = 4 })).current_scan_info.num_points
    ≡ some 7
announce_scan-num_points_example =
    announce_scan-num_points server opening (record worker { max_point_id = 4 }) 5 refl refl

abbrev item : Item
item = record {
  instructions = some opening ∷ none ∷ [];
  to_start = [];
  has_active_block = true;
  active_scan_id = some "scan-a";
  queue_id = "queue-a";
  return_to_start = true;
  stopped = false;
  is_active = false;
  status = InstructionQueueStatus.running;
}

abbrev about_to_stop : ScanWorker
about_to_stop = record worker { statuses = InstructionQueueStatus.stopped ∷ [] }

-- What is left when the item has been stopped at its first instruction.
abbrev stopped_run : Option (Item × ScanWorker × List Call)
unfolding runs
stopped_run = run_item devices server item about_to_stop

abbrev stopped_item : Item
unfolding runs
stopped_item = elim stopped_run [ none ↦ item | some r ↦ r.0 ]

abbrev stopped_worker : ScanWorker
unfolding runs
stopped_worker = elim stopped_run [ none ↦ worker | some r ↦ r.1 ]

run_item-HasEnded_example :
    IsReset stopped_worker
    × HasEnded stopped_item stopped_worker
        (increase_scan_number ∷ append_to_queue_history ∷ abort ∷ [])
unfolding runs
run_item-HasEnded_example =
    run_item-HasEnded devices server item stopped_item about_to_stop stopped_worker
      (increase_scan_number ∷ append_to_queue_history ∷ abort ∷ []) refl
