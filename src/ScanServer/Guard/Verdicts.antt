-- ===== src/ScanServer/Guard/Verdicts.antt =====
-- Which requests ScanGuard forwards (scan_server/scan_server/scan_guard.py).
use bec.Prelude.{
  String, ◌≡◌, refl, inl, inr, Option, none, some, Bool, true, false, ◌&&◌, ◌||◌, List, [], ◌∷◌,
  ◌==◌, string_eq, if◌then◌else◌, contains, arith, every, Option-cases,
}
use bec.Prelude.Dict.{lookup}
use bec.ScanServer.Guard.{
  Argument, text, scalar, empty, unhashable, DeviceParam, ScanRequest, Check, Session, rpc_devices,
  device_rpc_is_valid, check_valid_scan, check_rpc_devices, check_motor_args, check_motors_movable,
  is_valid_scan_request, request_response, scan_queue_insert, handle_scan_request,
}

-- Is the device one of the session's, and enabled?
abbrev pub is_enabled : Session → String → Bool
is_enabled s d = elim (lookup d s.devices) [ none ↦ false | some enabled ↦ enabled ]

-- A scan's argument keeps it from running if it names a disabled device, or is a list or a dict with
-- content.
abbrev pub is_movable : Session → Argument → Bool
is_movable s scalar = true
is_movable s empty = true
is_movable s unhashable = false
is_movable s (text m) =
    m == "" || elim (lookup m s.devices) [ none ↦ true | some enabled ↦ enabled ]

abbrev pub is_none : {A : Type 0} → Option A → Bool
is_none none = true
is_none (some a) = false

check_rpc_devices_lem :
    (s : Session) (ds : List String) → is_none (check_rpc_devices s ds) ≡ every (is_enabled s) ds
unfolding check_rpc_devices
check_rpc_devices_lem s [] = refl
check_rpc_devices_lem s (d ∷ ds) = ground (arith, check_rpc_devices_lem s ds)

check_motor_args_lem :
    (s : Session) (ms : List Argument) → is_none (check_motor_args s ms) ≡ every (is_movable s) ms
unfolding check_motor_args
check_motor_args_lem s [] = refl
check_motor_args_lem s (scalar ∷ ms) = check_motor_args_lem s ms
check_motor_args_lem s (empty ∷ ms) = check_motor_args_lem s ms
check_motor_args_lem s (unhashable ∷ ms) = refl
check_motor_args_lem s (text m ∷ ms) = ground (arith, check_motor_args_lem s ms)

-- The scan is available.
abbrev pub is_available : Session → ScanRequest → Bool
is_available s req = elim s.available_scans [
  | none ↦ false
  | some scans ↦ contains req.message.scan_type scans
]

-- The devices of an rpc are named, exist and are enabled.
abbrev pub allows_rpc : Session → Option DeviceParam → Bool
allows_rpc s none = false
allows_rpc s (some d) = device_rpc_is_valid (some d) && every (is_enabled s) (rpc_devices d)

abbrev pub is_acceptable : Session → ScanRequest → Bool
is_acceptable s req =
    is_available s req
    && (if req.message.scan_type == "device_rpc"
        then allows_rpc s req.device
        else every (is_movable s) req.args)

is_valid_scan_request-is_acceptable :
    (s : Session) (req : ScanRequest)
    → is_none (is_valid_scan_request s (some req)) ≡ is_acceptable s req
unfolding is_valid_scan_request check_valid_scan check_motors_movable
is_valid_scan_request-is_acceptable s req = elim (Option-cases req.device) [
  | inl e ↦ ground (arith, check_motor_args_lem s req.args)
  | inr (d, e) ↦
      ground (arith, check_motor_args_lem s req.args, check_rpc_devices_lem s (rpc_devices d))
]

-- Every request that could be loaded is answered once, first, and it is enqueued if and only if it
-- is accepted: its scan type is available, and for an rpc a device is named and every named device
-- exists and is enabled, while for a scan no argument names a disabled device or is a list or dict
-- with content.
pub handle_scan_request-is_acceptable :
    (s : Session) (req : ScanRequest)
    → (status : Check) × (handle_scan_request s (some req)
        ≡ some (
            request_response status req.message.metadata.rid
            ∷ (if is_acceptable s req then scan_queue_insert req ∷ [] else [])))
      × (is_none status ≡ is_acceptable s req)
unfolding handle_scan_request
handle_scan_request-is_acceptable s req =
    let e = is_valid_scan_request-is_acceptable s req in
    (is_valid_scan_request s (some req), ground arith, e)
