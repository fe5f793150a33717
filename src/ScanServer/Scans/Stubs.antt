-- ===== src/ScanServer/Scans/Stubs.antt =====
-- ScanStubs (scan_server/scan_server/scan_stubs.py), with the metadata that RequestBase of scans.py
-- gives to each message. A missing keyword is none.
use bec.Prelude.{
  ℕ, suc, String, Option, none, some, Bool, true, false, ◌&&◌, List, [], ◌∷◌, ◌++◌, ◌==◌, string_eq,
  option_eq, nat_eq, if◌then◌else◌, get_elem?, is_some, truthy,
}
use bec.Prelude.Dict.{Dict}
use bec.ScanServer.Scans.Effects.{
  Field, nothing, text, texts, number, flag, value, priorities, reading_of, Target, nowhere, one,
  many, Message, ReturnValue, status_dict, RpcReply, StatusReply, device_message_error,
  scan_abortion, index_error, Settings, returns, waits, Run, ◌>>=◌, ◌>>◌, pure, fail, self, modify,
  or_else, for_each, merge,
}

abbrev pub is_named : Target → Bool
is_named nowhere = false
is_named (one d) = if d == "" then false else true
is_named (many []) = false
is_named (many (d ∷ ds)) = true

abbrev pub is_nowhere : Target → Bool
is_nowhere nowhere = true
is_nowhere _ = false

-- A keyword that may be None, as a value of a dictionary.
abbrev pub maybe_text : {V : Type 0} → Option String → Field V
maybe_text none = nothing
maybe_text (some s) = text s

abbrev pub maybe_number : {V : Type 0} → Option ℕ → Field V
maybe_number none = nothing
maybe_number (some n) = number n

abbrev pub maybe_value : {V : Type 0} → Option V → Field V
maybe_value none = nothing
maybe_value (some v) = value v

abbrev pub is_none : {V : Type 0} → Field V → Bool
is_none nothing = true
is_none _ = false

unfoldable pub exclude_nones : {V : Type 0} → Dict String (Field V) → Dict String (Field V)
exclude_nones [] = []
exclude_nones ((k, v) ∷ d) = if is_none v then exclude_nones d else (k, v) ∷ exclude_nones d

-- What `_get_from_rpc` returns: the return value, or the Status object of a request.
pub data Returned (V : Type 0) : Type 0 where
  plain : ReturnValue V → Returned V
  status_of : String → Returned V

-- A return value of type "status" with an RID becomes a Status.
abbrev pub wrap_return : {V : Type 0} → ReturnValue V → Returned V
wrap_return (status_dict (some r)) = if r == "" then plain (status_dict (some r)) else status_of r
wrap_return v = plain v

-- The last part of `_get_from_rpc`, on the reply.
unfoldable pub read_reply : {V : Type 0} → RpcReply V → Run V (Returned V)
read_reply r = if r.success then pure (wrap_return r.return_val) else fail scan_abortion

-- `_get_from_rpc`: it polls until there is a reply.
unfoldable pub get_from_rpc : {V : Type 0} → List (Option (RpcReply V)) → Run V (Returned V)
unfolding read_reply
get_from_rpc [] s = waits (record s { rpc_replies = [] })
get_from_rpc (none ∷ polls) s = get_from_rpc polls s
get_from_rpc (some r ∷ polls) s = read_reply r (record s { rpc_replies = polls })

-- Do a status's RID and DIID match?
abbrev pub matches : Option String → ℕ → StatusReply → Bool
matches rid diid m = m.rid == rid && m.diid == some diid

-- get_req_status, on what the poll finds.
unfoldable pub get_req_status : Option StatusReply → Option String → ℕ → ℕ
get_req_status none rid diid = 0
get_req_status (some m) rid diid = if matches rid diid m then 1 else 0

-- get_device_progress, on what the poll finds.
unfoldable pub get_device_progress : Option StatusReply → Option String → Option ℕ
get_device_progress none rid = none
get_device_progress (some m) rid = if m.rid == rid then some m.status else none

module _ {V : Type 0} (scan : Settings V) where
  -- device_msg_metadata of RequestBase, which counts the DIID up.
  unfoldable pub device_msg_metadata : Run V (Dict String (Field V))
  unfolding merge
  device_msg_metadata s =
      returns
        (merge (("readout_priority", text "monitored") ∷ ("DIID", number s.diid) ∷ [])
          scan.metadata)
        (record s { diid = suc s.diid })

  -- `yield self._device_msg(…)`
  unfoldable pub device_msg : Message V → Run V (Unit {0})
  unfolding device_msg_metadata merge
  device_msg m = device_msg_metadata >>= λ d.
      modify
        (λ s. record s { sent = s.sent ++ some (record m { metadata = merge d m.metadata }) ∷ [] })

  -- A message without parameter and metadata.
  abbrev pub simple : String → Message V
  simple action = record { device = nowhere; action = action; parameter = []; metadata = [] }

  unfoldable pub check_device_and_groups : Target → Option String → Run V (Unit {0})
  check_device_and_groups device group =
      if is_named device && truthy group
      then fail device_message_error
      else if is_nowhere device
      then if is_some group then pure tt else fail device_message_error
      else pure tt

  unfoldable pub open_scan :
      List String
      → Dict String (List String)
      → Option ℕ
      → String
      → String
      → Field V
      → Run V (Unit {0})
  unfolding device_msg
  open_scan scan_motors readout_priority num_pos scan_name scan_type pos = device_msg (record {
    device = nowhere;
    action = "open_scan";
    parameter =
        ("scan_motors", texts scan_motors)
        ∷ ("readout_priority", priorities readout_priority)
        ∷ ("num_points", maybe_number num_pos)
        ∷ ("positions", pos)
        ∷ ("scan_name", text scan_name)
        ∷ ("scan_type", text scan_type)
        ∷ [];
    metadata = [];
  })

  -- kickoff, in the wait group "kickoff"; its parameter is the configuration.
  unfoldable pub kickoff : String → Field V → Run V (Unit {0})
  unfolding device_msg
  kickoff device parameter = device_msg (record {
    device = one device;
    action = "kickoff";
    parameter = ("configure", parameter) ∷ ("wait_group", text "kickoff") ∷ [];
    metadata = [];
  })

  unfoldable pub complete : String → Run V (Unit {0})
  unfolding device_msg
  complete device = device_msg (record (simple "complete") { device = one device })

  unfoldable pub close_scan : Run V (Unit {0})
  unfolding device_msg
  close_scan = device_msg (simple "close_scan")

  unfoldable pub stage : Run V (Unit {0})
  unfolding device_msg
  stage = device_msg (simple "stage")

  unfoldable pub unstage : Run V (Unit {0})
  unfolding device_msg
  unstage = device_msg (simple "unstage")

  unfoldable pub pre_scan : Run V (Unit {0})
  unfolding device_msg
  pre_scan = device_msg (simple "pre_scan")

  unfoldable pub baseline_reading : Run V (Unit {0})
  unfolding device_msg
  baseline_reading =
      device_msg (record (simple "baseline_reading") {
        metadata = ("readout_priority", text "baseline") ∷ [];
      })

  -- wait: its type, device, group, wait group and time.
  unfoldable pub wait :
      String → Target → Option String → Option String → Option V → Run V (Unit {0})
  unfolding check_device_and_groups device_msg exclude_nones
  wait wait_type device group wait_group wait_time =
      check_device_and_groups device group
      >> device_msg (record {
        device = device;
        action = "wait";
        parameter = exclude_nones (
            ("type", text wait_type)
            ∷ ("time", maybe_value wait_time)
            ∷ ("group", maybe_text group)
            ∷ ("wait_group", maybe_text wait_group)
            ∷ []);
        metadata = [];
      })

  -- read: its wait group, device, point and group.
  unfoldable pub read : String → Target → Option ℕ → Option String → Run V (Unit {0})
  unfolding check_device_and_groups device_msg exclude_nones
  read wait_group device point_id group =
      check_device_and_groups device group
      >> device_msg (record {
        device = device;
        action = "read";
        parameter =
            exclude_nones (("group", maybe_text group) ∷ ("wait_group", text wait_group) ∷ []);
        metadata = exclude_nones (("pointID", maybe_number point_id) ∷ []);
      })

  unfoldable pub publish_data_as_read : String → ℕ → ℕ → Run V (Unit {0})
  unfolding device_msg
  publish_data_as_read device reading point_id = device_msg (record {
    device = one device;
    action = "publish_data_as_read";
    parameter = ("data", reading_of device reading) ∷ [];
    metadata = ("pointID", number point_id) ∷ [];
  })

  unfoldable pub trigger : String → ℕ → Run V (Unit {0})
  unfolding device_msg
  trigger group point_id = device_msg (record {
    device = nowhere;
    action = "trigger";
    parameter = ("group", text group) ∷ [];
    metadata = ("pointID", number point_id) ∷ [];
  })

  -- set, with the metadata of its message.
  unfoldable pub set : String → V → String → Dict String (Field V) → Run V (Unit {0})
  unfolding device_msg
  set device v wait_group metadata = device_msg (record {
    device = one device;
    action = "set";
    parameter = ("value", value v) ∷ ("wait_group", text wait_group) ∷ [];
    metadata = metadata;
  })

  unfoldable pub open_scan_def : Run V (Unit {0})
  unfolding device_msg
  open_scan_def = device_msg (simple "open_scan_def")

  unfoldable pub close_scan_def : Run V (Unit {0})
  unfolding device_msg
  close_scan_def = device_msg (simple "close_scan_def")

  unfoldable pub close_scan_group : Run V (Unit {0})
  unfolding device_msg
  close_scan_group = device_msg (simple "close_scan_group")

  unfoldable pub rpc : Target → Dict String (Field V) → Dict String (Field V) → Run V (Unit {0})
  unfolding device_msg
  rpc device parameter metadata =
      device_msg
        (record { device = device; action = "rpc"; parameter = parameter; metadata = metadata })

  unfoldable pub scan_report_instruction : Dict String (Field V) → Run V (Unit {0})
  unfolding device_msg
  scan_report_instruction instructions =
      device_msg (record (simple "scan_report_instruction") { parameter = instructions })

  -- send_rpc_and_wait, of a function without arguments.
  unfoldable pub send_rpc_and_wait : String → String → Run V (Returned V)
  unfolding rpc get_from_rpc
  send_rpc_and_wait device func = self >>= λ s.
      modify (λ t. record t { uuids = suc t.uuids })
      >> rpc (one device)
          (("device", text device)
            ∷ ("func", text func)
            ∷ ("rpc_id", text (scan.uuid s.uuids))
            ∷ ("args", texts [])
            ∷ ("kwargs", texts [])
            ∷ [])
          (("response", flag true) ∷ [])
      >> (self >>= λ t. get_from_rpc t.rpc_replies)

  -- `yield from self.set(…positions[ind]…)` for each device; a missing position is an IndexError.
  unfoldable pub set_one : List V → ℕ → String → Run V (Unit {0})
  unfolding set
  set_one pos i device =
      or_else (get_elem? pos i) (fail index_error) (λ v. set device v "scan_motor" [])

  unfoldable pub set_and_wait : List String → List V → Run V (Unit {0})
  unfolding set_one for_each wait
  set_and_wait devices [] = pure tt
  set_and_wait devices (v ∷ vs) =
      for_each devices 0 (set_one (v ∷ vs))
      >> wait "move" (many devices) none (some "scan_motor") none

  -- read_and_wait: its wait group, device, group and point.
  unfoldable pub read_and_wait : String → Target → Option String → Option ℕ → Run V (Unit {0})
  unfolding check_device_and_groups read wait
  read_and_wait wait_group device group point_id =
      check_device_and_groups device group
      >> read wait_group device point_id group
      >> wait "read" device group (some wait_group) none
