-- ===== src/ScanServer/Worker/Scans/Brackets.antt =====
-- How a scan that ScanWorker has opened is closed, and the number of points that it announces
-- (scan_server/scan_server/scan_worker.py).
use bec.Prelude.{
  ℕ, suc, ◌+◌, ◌-◌, String, ◌≡◌, refl, inl, inr, Option, none, some, true, false, List, ◌∷◌, ◌==◌,
  string_eq, option_eq, nat_eq, if◌then◌else◌, arith, Bool-cases, truthy, ap, ◌∙◌, sym,
}
use bec.ScanServer.Messages.{DeviceInstructionMessage, Server, Parameter}
use bec.ScanServer.Worker.State.{
  ScanInfo, Sent, scan_status, queue_status, ScanWorker, continues, send, send_scan_status,
}
use bec.ScanServer.Worker.Waiting.{DeviceManager}
use bec.ScanServer.Worker.Scans.{
  with_motors, are_known, enter_scan, count_points, initialize_scan_info, announce_scan, open_scan,
  info_type, close_scan, shows_progress,
}

-- The info of a scan that an instruction opens.
abbrev pub info_of : Server → DeviceInstructionMessage → ℕ → ScanInfo
info_of server instr n = record {
  opened = some (record {
    metadata = instr.metadata;
    parameter = instr.parameter;
    scan_number = server.scan_number;
    dataset_number = server.dataset_number;
  });
  num_points = some n;
}

-- The points to which the ones of a new scan add.
abbrev pub last_point : DeviceInstructionMessage → ScanWorker → ℕ
last_point instr w = if truthy instr.metadata.scan_def_id then w.max_point_id else 0

announce_scan_lem :
    (server : Server) (instr : DeviceInstructionMessage) (w : ScanWorker)
    → let info =
        info_of server instr (count_points (last_point instr w) instr.parameter.num_points) in
      ((announce_scan server instr w).sent
        ≡ scan_status w.current_scan_id "open" info ∷ queue_status ∷ w.sent)
      × ((announce_scan server instr w).current_scan_info ≡ info)
      × ((announce_scan server instr w).scan_id ≡ w.scan_id)
unfolding announce_scan initialize_scan_info send_scan_status
announce_scan_lem server instr w = elim (Bool-cases (truthy instr.metadata.scan_def_id)) [
  | inl d ↦ elim (Bool-cases (shows_progress w.reports)) [
    | inl s ↦ rw (d, s) (refl, refl, refl)
    | inr s ↦ rw (d, s) (refl, refl, refl)
  ]
  | inr d ↦ elim (Bool-cases (shows_progress w.reports)) [
    | inl s ↦ rw (d, s) (refl, refl, refl)
    | inr s ↦ rw (d, s) (refl, refl, refl)
  ]
]

-- The worker once it has taken over a scan's id, motors and type.
abbrev entered : DeviceInstructionMessage → ScanWorker → ScanWorker
entered instr w =
    record (with_motors instr.parameter.scan_motors instr.parameter
      (record w { scan_id = instr.metadata.scan_id })) { scan_type = instr.parameter.scan_type }

with_motors_lem :
    (ms : Option (List String)) (p : Parameter) (w : ScanWorker)
    → ((with_motors ms p w).sent ≡ w.sent)
      × ((with_motors ms p w).scan_id ≡ w.scan_id)
      × ((with_motors ms p w).current_scan_id ≡ w.current_scan_id)
      × ((with_motors ms p w).max_point_id ≡ w.max_point_id)
with_motors_lem none p w = (refl, refl, refl, refl)
with_motors_lem (some ms) p w = (refl, refl, refl, refl)

-- The worker after the end of a scan.
abbrev pub closed : ScanInfo → ScanWorker → ScanWorker
closed info v =
    send (scan_status v.current_scan_id "closed" info)
      (record v { scan_id = none; current_scan_info = info })

open_scan_lem :
    (dm : DeviceManager) (server : Server) (instr : DeviceInstructionMessage) (w : ScanWorker)
    → truthy w.scan_id ≡ false
    → are_known dm instr.parameter.scan_motors ≡ true
    → open_scan dm server instr w ≡ continues (announce_scan server instr (entered instr w))
unfolding open_scan enter_scan
open_scan_lem dm server instr w n k = ground (arith, n, k)

eq_of_continues : (u v : ScanWorker) → continues u ≡ continues v → u ≡ v
eq_of_continues u v e = ground arith

close_scan_lem :
    (last : DeviceInstructionMessage) (max : ℕ) (v : ScanWorker) (info : ScanInfo)
    (id : Option String)
    → v.scan_id ≡ id
    → v.current_scan_info ≡ info
    → close_scan last max v ≡ (
        if id == last.metadata.scan_id
        then closed
            (record info {
              num_points =
                  some (if info_type info.opened == some "fly" then v.num_pos else suc max);
            })
            v
        else v)
unfolding close_scan send_scan_status
close_scan_lem last max v info id hs hi =
    ap (λ s. if s == last.metadata.scan_id then closed (closing v.current_scan_info) v else v) hs
    ∙ ap (λ i. if id == last.metadata.scan_id then closed (closing i) v else v) hi
  where
    closing : ScanInfo → ScanInfo
    closing i = record i {
      num_points = some (if info_type i.opened == some "fly" then v.num_pos else suc max);
    }

-- When no scan is open, opening one with known motors sends its status `open`. Whatever comes after,
-- as long as it leaves the open scan and its info, an instruction to close it sends its status
-- `closed` if it has the same scan id, with the points up to the last one, or all that a fly scan has,
-- and does nothing if it has another one.
pub close_scan-open_scan :
    (dm : DeviceManager) (server : Server) (instr last : DeviceInstructionMessage)
    (w u v : ScanWorker) (max : ℕ)
    → truthy w.scan_id ≡ false
    → are_known dm instr.parameter.scan_motors ≡ true
    → open_scan dm server instr w ≡ continues u
    → v.scan_id ≡ u.scan_id
    → v.current_scan_info ≡ u.current_scan_info
    → let info =
        info_of server instr (count_points (last_point instr w) instr.parameter.num_points) in
      (u.sent ≡ scan_status w.current_scan_id "open" info ∷ queue_status ∷ w.sent)
      × (close_scan last max v ≡ (
          if instr.metadata.scan_id == last.metadata.scan_id
          then closed
              (record info {
                num_points =
                    some (if instr.parameter.scan_type == some "fly" then v.num_pos else suc max);
              })
              v
          else v))
close_scan-open_scan dm server instr last w u v max n k o hs hi =
    let e = entered instr w in
    let (ws, wi, wc, wp) =
      with_motors_lem instr.parameter.scan_motors instr.parameter
        (record w { scan_id = instr.metadata.scan_id }) in
    let (sent, info, id) = announce_scan_lem server instr e in
    let same : last_point instr e ≡ last_point instr w =
      ap (λ m. if truthy instr.metadata.scan_def_id then m else 0) wp in
    let opened : u ≡ announce_scan server instr e =
      eq_of_continues u (announce_scan server instr e)
        (sym o ∙ open_scan_lem dm server instr w n k) in
    (
      ap (λ x. x.sent) opened
          ∙ sent
          ∙ ap (λ c. opening c (last_point instr e) e.sent) wc
          ∙ ap (λ l. opening w.current_scan_id l e.sent) same
          ∙ ap (opening w.current_scan_id (last_point instr w)) ws,
      close_scan_lem last max v _ instr.metadata.scan_id (hs ∙ ap (λ x. x.scan_id) opened ∙ id ∙ wi)
          (hi
            ∙ ap (λ x. x.current_scan_info) opened
            ∙ info
            ∙ ap (λ l. info_of server instr (count_points l instr.parameter.num_points)) same),
    )
  where
    opening : Option String → ℕ → List Sent → List Sent
    opening c l sent =
        scan_status c "open" (info_of server instr (count_points l instr.parameter.num_points))
        ∷ queue_status
        ∷ sent

-- A scan in a scan definition announces its own points and the m points before it, except after a
-- single one: that one has the id 0, which the worker takes for no point at all.
pub announce_scan-num_points :
    (server : Server) (instr : DeviceInstructionMessage) (w : ScanWorker) (m : ℕ)
    → truthy instr.metadata.scan_def_id ≡ true
    → w.max_point_id ≡ m - 1
    → (announce_scan server instr w).current_scan_info.num_points
      ≡ some (if m == 1 then instr.parameter.num_points else m + instr.parameter.num_points)
unfolding announce_scan initialize_scan_info send_scan_status
announce_scan-num_points server instr w m d e =
    let lem = announce_scan_lem server instr w in
    ap (λ i. i.num_points) lem.1 ∙ rw (d, e) (ground arith)
