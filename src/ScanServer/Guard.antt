-- ===== src/ScanServer/Guard.antt =====
-- ScanGuard (scan_server/scan_server/scan_guard.py). The traceback that a rejection carries is
-- modelled as the exception behind it.
pub mod Verdicts
use bec.Prelude.{
  ℕ, String, Option, none, some, Bool, true, false, ◌&&◌, not, List, [], ◌∷◌, ◌++◌, ◌==◌, string_eq,
  if◌then◌else◌, contains, truthy,
}
use bec.Prelude.Dict.{Dict, lookup}
use bec.ScanServer.Messages.{ScanQueueMessage}

-- The parameter `device` of a request: one name or a list of names.
pub data DeviceParam : Type 0 where
  one : String → DeviceParam
  many : List String → DeviceParam

-- An entry of the arguments: a text, a value that is no device such as a number, an empty list or dict,
-- or one with content, which cannot be looked up in a dictionary.
pub data Argument : Type 0 where
  text : String → Argument
  scalar empty unhashable : Argument

-- A request with what the guard reads of its parameters.
pub record ScanRequest : Type 0 where
  pub message : ScanQueueMessage
  pub device : Option DeviceParam
  pub args : List Argument

pub data Rejection : Type 0 where
  invalid_request redis_error : Rejection
  unknown_scan_type : String → Rejection
  rejected_rpc type_error : Rejection
  not_enabled key_error : String → Rejection

-- What the checks raise, none when they pass.
abbrev pub Check : Type 0
Check = Option Rejection

abbrev pub and_then : Check → Check → Check
and_then none c = c
and_then (some e) c = some e

-- The devices of the session, with their enabled flags; the available scans as redis has them, none
-- when it has none.
pub record Session : Type 0 where
  pub devices : Dict String Bool
  pub available_scans : Option (List String)

abbrev pub rpc_devices : DeviceParam → List String
rpc_devices (one d) = d ∷ []
rpc_devices (many ds) = ds

-- `_device_rpc_is_valid`
unfoldable pub device_rpc_is_valid : Option DeviceParam → Bool
device_rpc_is_valid none = false
device_rpc_is_valid (some (one d)) = not (d == "")
device_rpc_is_valid (some (many [])) = false
device_rpc_is_valid (some (many (d ∷ ds))) = true

-- `_check_valid_scan`
unfoldable pub check_valid_scan : Session → ScanRequest → Check
unfolding device_rpc_is_valid
check_valid_scan s req = elim s.available_scans [
  | none ↦ some redis_error
  | some scans ↦
      if not (contains req.message.scan_type scans)
      then some (unknown_scan_type req.message.scan_type)
      else if req.message.scan_type == "device_rpc" && not (device_rpc_is_valid req.device)
      then some rejected_rpc
      else none
]

-- The devices of an rpc, each of which has to exist.
unfoldable pub check_rpc_devices : Session → List String → Check
check_rpc_devices s [] = none
check_rpc_devices s (d ∷ ds) = elim (lookup d s.devices) [
  | none ↦ some (key_error d)
  | some enabled ↦ if enabled then check_rpc_devices s ds else some (not_enabled d)
]

-- The arguments of a scan, of which those that are no device are skipped; to look for a list or a dict
-- among the devices is a TypeError.
unfoldable pub check_motor_args : Session → List Argument → Check
check_motor_args s [] = none
check_motor_args s (scalar ∷ ms) = check_motor_args s ms
check_motor_args s (empty ∷ ms) = check_motor_args s ms
check_motor_args s (unhashable ∷ ms) = some type_error
check_motor_args s (text m ∷ ms) =
    if m == "" then check_motor_args s ms else elim (lookup m s.devices) [
      | none ↦ check_motor_args s ms
      | some enabled ↦ if enabled then check_motor_args s ms else some (not_enabled m)
    ]

-- `_check_motors_movable`
unfoldable pub check_motors_movable : Session → ScanRequest → Check
unfolding check_rpc_devices check_motor_args
check_motors_movable s req =
    if req.message.scan_type == "device_rpc"
    then elim req.device [
      | none ↦ some (key_error "device")
      | some d ↦ check_rpc_devices s (rpc_devices d)
    ]
    else check_motor_args s req.args

-- `_is_valid_scan_request`; the checks of the baton and of the soft limits are empty. A request that
-- could not be loaded is none.
unfoldable pub is_valid_scan_request : Session → Option ScanRequest → Check
unfolding check_valid_scan check_motors_movable
is_valid_scan_request s none = some invalid_request
is_valid_scan_request s (some req) = and_then (check_valid_scan s req) (check_motors_movable s req)

-- What the guard sends; the request's id stands for the metadata of a response.
pub data Sent : Type 0 where
  request_response : Check → String → Sent
  scan_queue_insert : ScanRequest → Sent
  scan_queue_modification : String → String → Sent

-- `_handle_scan_request`: what it sends, in order, and none is its AttributeError on a message that
-- is None.
unfoldable pub handle_scan_request : Session → Option ScanRequest → Option (List Sent)
unfolding is_valid_scan_request
handle_scan_request s none = none
handle_scan_request s (some req) =
    let status = is_valid_scan_request s (some req) in
    some (
      request_response status req.message.metadata.rid
      ∷ elim status [ none ↦ scan_queue_insert req ∷ [] | some e ↦ [] ])

pub record ModificationRequest : Type 0 where
  pub action : String
  -- The parameter RID, and the one of the metadata.
  pub parameter_rid : Option String
  pub rid : String

abbrev pub restart_response : Option String → String → String × List Sent
restart_response none rid = (rid, [])
restart_response (some r) rid = if r == "" then (rid, []) else (r, request_response none r ∷ [])

-- `_handle_scan_modification_request`
unfoldable pub handle_scan_modification_request : ModificationRequest → List Sent
handle_scan_modification_request msg =
    let (rid, sent) =
      if msg.action == "restart"
      then restart_response msg.parameter_rid msg.rid
      else (msg.rid, []) in
    sent ++ scan_queue_modification msg.action rid ∷ []
