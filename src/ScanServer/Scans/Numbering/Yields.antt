-- ===== src/ScanServer/Scans/Numbering/Yields.antt =====
-- Every stub (scan_server/scan_server/scan_stubs.py) keeps the numbering of the messages.
use bec.Prelude.{ℕ, String, Option, none, some, false, List, [], ◌∷◌, ◌≡◌, refl, string_eq}
use bec.Prelude.Dict.{Dict, has}
use bec.ScanServer.Scans.Effects.{Field, Target, Request, Settings, RpcReply}
use bec.ScanServer.Scans.Stubs
use bec.ScanServer.Scans.Hoare.{Keeps, if-Keeps, pure-Keeps, fail-Keeps, run_rules}
use bec.ScanServer.Scans.Numbering.{IsNumbered, device_msg-Keeps}

module _ {V : Type 0} (P : Request V → Type 0) (scan : Settings V) where
  -- The check yields nothing.
  pub check_device_and_groups-Keeps :
      (d : Target) (g : Option String) → Keeps P (Stubs.check_device_and_groups scan d g)
  unfolding Stubs.check_device_and_groups
  check_device_and_groups-Keeps d g = search run_rules

-- What a poll for a reply keeps.
module _ {V : Type 0} (P : Request V → Type 0)
    (open_polls : (s : Request V) (r : List (Option (RpcReply V)))
      → P s
      → P (record s { rpc_replies = r })) where
  pub get_from_rpc-Keeps : (polls : List (Option (RpcReply V))) → Keeps P (Stubs.get_from_rpc polls)
  unfolding Stubs.get_from_rpc Stubs.read_reply
  get_from_rpc-Keeps [] s p = open_polls s [] p
  get_from_rpc-Keeps (none ∷ polls) s p = get_from_rpc-Keeps polls s p
  get_from_rpc-Keeps (some r ∷ polls) s p =
      if-Keeps P r.success _ _ (pure-Keeps P _) (fail-Keeps P _ _) _ (open_polls s polls p)

module _ {V : Type 0} (scan : Settings V) (fresh : has "DIID" scan.metadata ≡ false) where
  pub close_scan-Keeps : Keeps IsNumbered (Stubs.close_scan scan)
  unfolding Stubs.close_scan has
  close_scan-Keeps = search (device_msg-Keeps scan fresh)

  pub stage-Keeps : Keeps IsNumbered (Stubs.stage scan)
  unfolding Stubs.stage has
  stage-Keeps = search (device_msg-Keeps scan fresh)

  pub unstage-Keeps : Keeps IsNumbered (Stubs.unstage scan)
  unfolding Stubs.unstage has
  unstage-Keeps = search (device_msg-Keeps scan fresh)

  pub pre_scan-Keeps : Keeps IsNumbered (Stubs.pre_scan scan)
  unfolding Stubs.pre_scan has
  pre_scan-Keeps = search (device_msg-Keeps scan fresh)

  pub baseline_reading-Keeps : Keeps IsNumbered (Stubs.baseline_reading scan)
  unfolding Stubs.baseline_reading has
  baseline_reading-Keeps = search (device_msg-Keeps scan fresh)

  pub open_scan_def-Keeps : Keeps IsNumbered (Stubs.open_scan_def scan)
  unfolding Stubs.open_scan_def has
  open_scan_def-Keeps = search (device_msg-Keeps scan fresh)

  pub close_scan_def-Keeps : Keeps IsNumbered (Stubs.close_scan_def scan)
  unfolding Stubs.close_scan_def has
  close_scan_def-Keeps = search (device_msg-Keeps scan fresh)

  pub close_scan_group-Keeps : Keeps IsNumbered (Stubs.close_scan_group scan)
  unfolding Stubs.close_scan_group has
  close_scan_group-Keeps = search (device_msg-Keeps scan fresh)

  pub open_scan-Keeps :
      (ms : List String) (rp : Dict String (List String)) (n : Option ℕ) (name type : String)
      (ps : Field V)
      → Keeps IsNumbered (Stubs.open_scan scan ms rp n name type ps)
  unfolding Stubs.open_scan has
  open_scan-Keeps ms rp n name type ps = search (device_msg-Keeps scan fresh)

  pub kickoff-Keeps : (d : String) (p : Field V) → Keeps IsNumbered (Stubs.kickoff scan d p)
  unfolding Stubs.kickoff has
  kickoff-Keeps d p = search (device_msg-Keeps scan fresh)

  pub complete-Keeps : (d : String) → Keeps IsNumbered (Stubs.complete scan d)
  unfolding Stubs.complete has
  complete-Keeps d = search (device_msg-Keeps scan fresh)

  pub publish_data_as_read-Keeps :
      (d : String) (r p : ℕ) → Keeps IsNumbered (Stubs.publish_data_as_read scan d r p)
  unfolding Stubs.publish_data_as_read has
  publish_data_as_read-Keeps d r p = search (device_msg-Keeps scan fresh)

  pub trigger-Keeps : (g : String) (p : ℕ) → Keeps IsNumbered (Stubs.trigger scan g p)
  unfolding Stubs.trigger has
  trigger-Keeps g p = search (device_msg-Keeps scan fresh)

  pub scan_report_instruction-Keeps :
      (d : Dict String (Field V)) → Keeps IsNumbered (Stubs.scan_report_instruction scan d)
  unfolding Stubs.scan_report_instruction has
  scan_report_instruction-Keeps d = search (device_msg-Keeps scan fresh)

  pub set-Keeps :
      (d : String) (v : V) (g : String) (m : Dict String (Field V))
      → has "DIID" m ≡ false
      → Keeps IsNumbered (Stubs.set scan d v g m)
  unfolding Stubs.set
  set-Keeps d v g m h = search (device_msg-Keeps scan fresh, h)

  pub rpc-Keeps :
      (d : Target) (p m : Dict String (Field V))
      → has "DIID" m ≡ false
      → Keeps IsNumbered (Stubs.rpc scan d p m)
  unfolding Stubs.rpc
  rpc-Keeps d p m h = search (device_msg-Keeps scan fresh, h)

  pub wait-Keeps :
      (t : String) (d : Target) (g w : Option String) (v : Option V)
      → Keeps IsNumbered (Stubs.wait scan t d g w v)
  unfolding Stubs.wait has
  wait-Keeps t d g w v =
      search (run_rules, check_device_and_groups-Keeps IsNumbered scan, device_msg-Keeps scan fresh)

  pub read-Keeps :
      (w : String) (d : Target) (p : Option ℕ) (g : Option String)
      → Keeps IsNumbered (Stubs.read scan w d p g)
  unfolding has Stubs.read Stubs.exclude_nones
  read-Keeps w d none g =
      search (run_rules, check_device_and_groups-Keeps IsNumbered scan, device_msg-Keeps scan fresh)
  read-Keeps w d (some p) g =
      search (run_rules, check_device_and_groups-Keeps IsNumbered scan, device_msg-Keeps scan fresh)

  pub read_and_wait-Keeps :
      (w : String) (d : Target) (g : Option String) (p : Option ℕ)
      → Keeps IsNumbered (Stubs.read_and_wait scan w d g p)
  unfolding Stubs.read_and_wait
  read_and_wait-Keeps w d g p =
      search (run_rules, check_device_and_groups-Keeps IsNumbered scan, read-Keeps, wait-Keeps)

  pub send_rpc_and_wait-Keeps : (d f : String) → Keeps IsNumbered (Stubs.send_rpc_and_wait scan d f)
  unfolding has Stubs.send_rpc_and_wait
  send_rpc_and_wait-Keeps d f =
      search (run_rules, rpc-Keeps, get_from_rpc-Keeps IsNumbered (λ s r p. p))

  pub set_one-Keeps :
      (pos : List V) (i : ℕ) (d : String) → Keeps IsNumbered (Stubs.set_one scan pos i d)
  unfolding Stubs.set_one has
  set_one-Keeps pos i d = search (run_rules, set-Keeps, refl)

  pub set_and_wait-Keeps :
      (ds : List String) (pos : List V) → Keeps IsNumbered (Stubs.set_and_wait scan ds pos)
  unfolding Stubs.set_and_wait
  set_and_wait-Keeps ds [] = search run_rules
  set_and_wait-Keeps ds (v ∷ vs) = search (run_rules, set_one-Keeps, wait-Keeps)
