-- ===== src/ScanServer/Worker/Waiting.antt =====
-- The wait groups of ScanWorker, and how it waits for devices (scan_server/scan_server/scan_worker.py).
pub mod Judgements
pub mod Answers
pub mod Progress
use bec.Prelude.{
  ℕ, String, Option, none, some, Bool, true, false, ◌&&◌, ◌||◌, not, List, [], ◌∷◌, ◌==◌, string_eq,
  option_eq, nat_eq, if◌then◌else◌, contains, map, keep, every, truthy, is_some,
}
use bec.Prelude.Dict.{Dict, lookup, insert, has}
use bec.ScanServer.Messages.{DeviceInstructionMessage, Action, Parameter, InstructionMetadata}
use bec.ScanServer.Worker.State.{
  DeviceReply, Poll, Sent, movement_failed, ScanWorker, Exception, device_message_error, key_error,
  attribute_error, Result, continues, scan_abortion, blocks, raises, and_then, send,
  check_for_interruption,
}

-- The device manager, by device names.
pub record DeviceManager : Type 0 where
  pub devices : List String
  pub enabled_devices : List String
  pub detectors : List String
  pub monitored_devices : Dict String (List String) → List String
  pub baseline_devices : Dict String (List String) → List String

abbrev pub is_empty : {A : Type 0} → List A → Bool
is_empty [] = true
is_empty (x ∷ xs) = false

abbrev pub devices_of_group : DeviceManager → Option String → ScanWorker → List String
devices_of_group dm none w = []
devices_of_group dm (some g) w =
    if g == "primary"
    then dm.monitored_devices w.readout_priority
    else if g == "scan_motor"
    then w.scan_motors
    else []

-- `_get_devices_from_instruction`; none is the KeyError on an unknown device.
unfoldable pub get_devices_from_instruction :
    DeviceManager → DeviceInstructionMessage → ScanWorker → Option (List String)
get_devices_from_instruction dm instr w =
    if is_empty instr.device
    then some (devices_of_group dm instr.parameter.group w)
    else if every (λ d. contains d dm.devices) instr.device
    then some instr.device
    else none

abbrev pub is_wait : Action → Bool
is_wait Action.wait = true
is_wait _ = false

-- dict.update with one value for all keys.
unfoldable pub set_all : List String → ℕ → Dict String ℕ → Dict String ℕ
set_all [] diid group = group
set_all (d ∷ ds) diid group = set_all ds diid (insert d diid group)

abbrev pub group_or_empty : Option (Dict String ℕ) → Dict String ℕ
group_or_empty none = []
group_or_empty (some g) = g

-- `_add_wait_group` for a wait group that is given.
unfoldable pub add_to_group :
    DeviceManager → String → DeviceInstructionMessage → ScanWorker → Result
unfolding get_devices_from_instruction set_all
add_to_group dm name instr w = elim (get_devices_from_instruction dm instr w) [
  | none ↦ raises key_error w
  | some devices ↦ elim instr.metadata.diid [
    | none ↦ raises device_message_error w
    | some diid ↦ continues (record w {
      groups = insert name (set_all devices diid (group_or_empty (lookup name w.groups))) w.groups;
    })
  ]
]

-- The name of a wait group, where None and the empty text are no name.
abbrev pub wait_group_of : Option String → Option String
wait_group_of none = none
wait_group_of (some g) = if g == "" then none else some g

unfoldable pub add_wait_group : DeviceManager → DeviceInstructionMessage → ScanWorker → Result
unfolding add_to_group
add_wait_group dm instr w =
    if is_wait instr.action then continues w else elim (wait_group_of instr.parameter.wait_group) [
      | none ↦ continues w
      | some name ↦ add_to_group dm name instr w
    ]

-- What a round of waiting decides from the replies of the devices.
pub data Verdict : Type 0 where
  ready retry : Verdict
  failed : String → Verdict
  breaks : Exception → Verdict

-- The replies, none when a device has not replied yet.
unfoldable pub replies : Poll → List String → Option (List DeviceReply)
replies poll [] = some []
replies poll (d ∷ ds) = elim (poll d) [
  | none ↦ none
  | some r ↦ elim (replies poll ds) [ none ↦ none | some rs ↦ some (r ∷ rs) ]
]

-- The loop of a wait, over the polls to come: it reads the replies, may be interrupted, and decides.
-- A failed device raises an alarm and ends the scan.
unfoldable pub wait_for :
    List Poll
    → DeviceInstructionMessage
    → List String
    → (List DeviceReply → Verdict)
    → ScanWorker
    → Result
unfolding replies
wait_for [] instr ds judge w = blocks w
wait_for (poll ∷ polls) instr ds judge w =
    and_then (check_for_interruption (record w { polls = polls })) (λ w'. elim (replies poll ds) [
      | none ↦ wait_for polls instr ds judge w'
      | some rs ↦ elim (judge rs) [
        | ready ↦ continues w'
        | retry ↦ wait_for polls instr ds judge w'
        | failed d ↦ scan_abortion (send (movement_failed d instr) w')
        | breaks e ↦ raises e w'
      ]
    ])

-- `metadata[key]` for every reply: it is read only if there is one.
abbrev pub with_key : Bool → List DeviceReply → Verdict → Verdict
with_key present rs v = if present || is_empty rs then v else breaks key_error

abbrev pub ready_if : Bool → Verdict
ready_if b = if b then ready else retry

abbrev pub match_scan_id : InstructionMetadata → List DeviceReply → Bool
match_scan_id m rs = every (λ r. r.scan_id == m.scan_id) rs

-- Each reply is to the instruction that the group has for its device.
unfoldable pub match_diids : List (String × ℕ) → List DeviceReply → Bool
match_diids [] rs = true
match_diids (d ∷ ds) [] = true
match_diids ((d, diid) ∷ ds) (r ∷ rs) = r.diid == some diid && match_diids ds rs

-- `_check_for_failed_movements`: the first failure, if it is of this instruction and this request.
unfoldable pub failed_movement :
    InstructionMetadata → List (String × ℕ) → List DeviceReply → Verdict
failed_movement m [] rs = retry
failed_movement m (d ∷ ds) [] = retry
failed_movement m ((d, diid) ∷ ds) (r ∷ rs) =
    if r.success
    then failed_movement m ds rs
    else if r.diid == some diid && r.rid == m.rid
    then failed d
    else retry

-- `_wait_for_idle`, one round.
unfoldable pub judge_idle : InstructionMetadata → List (String × ℕ) → List DeviceReply → Verdict
unfolding match_diids failed_movement
judge_idle m group rs = with_key (is_some m.scan_id && is_some m.rid) rs (
    if every (λ r. r.success) rs
    then ready_if (match_scan_id m rs && every (λ r. r.rid == m.rid) rs && match_diids group rs)
    else failed_movement m group rs)

-- `_wait_for_read`, one round.
unfoldable pub judge_read : InstructionMetadata → List (String × ℕ) → List DeviceReply → Verdict
unfolding match_diids
judge_read m group rs =
    with_key (is_some m.scan_id) rs
      (ready_if (every (λ r. r.status == 0) rs && match_scan_id m rs && match_diids group rs))

-- The rounds of _wait_for_stage, _wait_for_trigger and _wait_for_pre_scan, which differ in what makes
-- a device ready.
unfoldable pub judge_all : (DeviceReply → Bool) → InstructionMetadata → List DeviceReply → Verdict
judge_all is_ready m rs =
    with_key (is_some m.scan_id && is_some m.diid) rs
      (ready_if (every is_ready rs && match_scan_id m rs && every (λ r. r.diid == m.diid) rs))

-- The devices of a group that are, or are not, among those of an instruction.
abbrev pub among : List String → Dict String ℕ → List (String × ℕ)
among ds group = keep (λ (d, diid). contains d ds) group

abbrev pub others : List String → Dict String ℕ → List (String × ℕ)
others ds group = keep (λ (d, diid). not (contains d ds)) group

abbrev pub names : List (String × ℕ) → List String
names group = map (λ (d, diid). d) group

-- After the wait the devices leave the group.
abbrev pub leave_group : String → List String → Dict String ℕ → ScanWorker → ScanWorker
leave_group name ds group w = record w { groups = insert name (others ds group) w.groups }

-- `_wait_for_idle` and `_wait_for_read` from their common beginning to their common end.
unfoldable pub wait_for_group :
    DeviceManager
    → (InstructionMetadata → List (String × ℕ) → List DeviceReply → Verdict)
    → DeviceInstructionMessage
    → ScanWorker
    → Result
unfolding wait_for get_devices_from_instruction
wait_for_group dm judge instr w = elim (wait_group_of instr.parameter.wait_group) [
  | none ↦ continues w
  | some name ↦ elim (lookup name w.groups) [
    | none ↦ continues w
    | some group ↦ elim (get_devices_from_instruction dm instr w) [
      | none ↦ raises key_error w
      | some ds ↦
          and_then
            (wait_for w.polls instr (names (among ds group)) (judge instr.metadata (among ds group))
              w)
            (λ w'. continues (leave_group name ds group w'))
    ]
  ]
]

unfoldable pub wait_for_stage : Bool → List String → DeviceInstructionMessage → ScanWorker → Result
unfolding wait_for judge_all
wait_for_stage staged ds instr w =
    wait_for w.polls instr ds
      (judge_all (λ r. if staged then not (r.status == 0) else r.status == 0) instr.metadata) w

-- `_wait_for_trigger`, after its sleep; without a last trigger it has no metadata to read.
unfoldable pub wait_for_trigger : DeviceManager → DeviceInstructionMessage → ScanWorker → Result
unfolding wait_for judge_all
wait_for_trigger dm instr w = elim w.last_trigger [
  | none ↦ raises attribute_error w
  | some m ↦ wait_for w.polls instr dm.detectors (judge_all (λ r. r.success) m) w
]

unfoldable pub wait_for_pre_scan : DeviceManager → DeviceInstructionMessage → ScanWorker → Result
unfolding wait_for judge_all
wait_for_pre_scan dm instr w =
    wait_for w.polls instr dm.enabled_devices (judge_all (λ r. r.success) instr.metadata) w

-- `_wait_for_devices`, by the type of the wait.
unfoldable pub wait_for_devices : DeviceManager → DeviceInstructionMessage → ScanWorker → Result
unfolding wait_for_group judge_idle judge_read wait_for_trigger
wait_for_devices dm instr w = elim instr.parameter.wait_type [
  | none ↦ raises device_message_error w
  | some t ↦
      if t == "move"
      then wait_for_group dm judge_idle instr w
      else if t == "read"
      then wait_for_group dm judge_read instr w
      else if t == "trigger"
      then wait_for_trigger dm instr w
      else raises device_message_error w
]
