-- ===== src/ScanServer/Scans/Points.antt =====
-- The points of a scan (scan_server/scan_server/scans.py): what its messages say of them, and how the
-- stubs change that.
pub mod Steps
pub mod Runs
use bec.Prelude.{
  ℕ, zero, suc, ◌+◌, ◌*◌, ◌≤◌, ◌<◌, String, Option, none, some, Bool, true, false, List, [], ◌∷◌,
  ◌++◌, ◌≡◌, refl, sym, ◌∙◌, ap, subst, ◌==◌, string_eq, append-nil, if◌then◌else◌, arith, length,
  All, get_elem?, get_elem?-some,
}
use bec.Prelude.Dict.{Dict, lookup, insert, lookup-insert_self}
use bec.ScanServer.Scans.Effects.{
  Field, text, number, nowhere, one, Message, Positions, Request, Settings, Outcome, returns, Run,
  bind, fail, index_error, yield_none, texts, priorities, positions, merge, modify, pure, self,
  for_each, or_else, ◌>>=◌, ◌>>◌,
}
use bec.ScanServer.Scans.Stubs
use bec.ScanServer.Scans.Core
use bec.ScanServer.Scans.Hoare.{Does, then-Does, self-Does, modify-Does, for_each-Does}
use bec.ScanServer.Scans.Numbering.{
  upto, number_in, collect, collect-append_one, collect-append_none,
}

module _ {V : Type 0} where
  -- The points of the messages with this action, and the numbers of points announced.
  abbrev pub points : String → Message V → List ℕ
  points a m = if m.action == a then number_in (lookup "pointID" m.metadata) else []

  abbrev pub announced : Message V → List ℕ
  announced m = if m.action == "open_scan" then number_in (lookup "num_points" m.parameter) else []

-- What does not change from a scan's opening to its end.
pub record Frame (V : Type 0) : Type 0 where
  pub motors : List String
  pub places : Positions V
  pub start : List V
  pub total : Option ℕ

-- Triggers have gone to the points below t and readings to those below r, and the scan is at point p;
-- the numbers announced are l.
pub record At {V : Type 0} (f : Frame V) (l : List ℕ) (t r p : ℕ) (s : Request V) : Type 0 where
  pub motors_same : s.scan_motors ≡ f.motors
  pub places_same : s.positions ≡ f.places
  pub start_same : s.start_pos ≡ f.start
  pub total_same : s.num_pos ≡ f.total
  pub triggered : collect (points "trigger") s.sent ≡ upto t
  pub read : collect (points "read") s.sent ≡ upto r
  pub opened : collect announced s.sent ≡ l
  pub point : s.point_id ≡ p

module _ {V : Type 0} (scan : Settings V) (f : Frame V) where
  -- The message that device_msg yields in state s.
  abbrev stamped : Request V → Message V → Message V
  stamped s m = record m {
    metadata =
        merge
          (merge (("readout_priority", text "monitored") ∷ ("DIID", number s.diid) ∷ [])
            scan.metadata)
          m.metadata;
  }

  abbrev sent_one : Request V → Message V → Request V
  sent_one s m = record s { diid = suc s.diid; sent = s.sent ++ some (stamped s m) ∷ [] }

  device_msg-eq :
      (m : Message V) (s : Request V) → Stubs.device_msg scan m s ≡ returns tt (sent_one s m)
  unfolding Stubs.device_msg Stubs.device_msg_metadata modify
  device_msg-eq m s = refl

  -- A message that is neither a trigger nor a reading nor the opening.
  device_msg_silent :
      (l : List ℕ) (t r p : ℕ) (m : Message V)
      → (m.action == "trigger") ≡ false
      → (m.action == "read") ≡ false
      → (m.action == "open_scan") ≡ false
      → Does (At f l t r p) (Stubs.device_msg scan m) (At f l t r p)
  device_msg_silent l t r p m h h' h'' s a = (
    sent_one s m,
    device_msg-eq m s,
    record {
      motors_same = a.motors_same;
      places_same = a.places_same;
      start_same = a.start_same;
      total_same = a.total_same;
      triggered =
          collect-append_one (points "trigger") s.sent (stamped s m)
          ∙ rw (h, append-nil) a.triggered;
      read = collect-append_one (points "read") s.sent (stamped s m) ∙ rw (h', append-nil) a.read;
      opened = collect-append_one announced s.sent (stamped s m) ∙ rw (h'', append-nil) a.opened;
      point = a.point;
    },
  )

  -- The pointID of a message's own metadata stands over the request's.
  lookup-stamped :
      (d : Dict String (Field V)) (n : ℕ)
      → lookup "pointID" (merge d (("pointID", number n) ∷ [])) ≡ some (number n)
  unfolding merge
  lookup-stamped d n = lookup-insert_self "pointID" (number n) d

  trigger_group : ℕ → Message V
  trigger_group n = record {
    device = nowhere;
    action = "trigger";
    parameter = ("group", text "trigger") ∷ [];
    metadata = ("pointID", number n) ∷ [];
  }

  pub trigger-At :
      (l : List ℕ) (r p : ℕ)
      → Does (At f l p r p) (Stubs.trigger scan "trigger" p) (At f l (suc p) r p)
  unfolding Stubs.trigger trigger_group
  trigger-At l r p s a = (
    sent_one s (trigger_group p),
    device_msg-eq (trigger_group p) s,
    record {
      motors_same = a.motors_same;
      places_same = a.places_same;
      start_same = a.start_same;
      total_same = a.total_same;
      triggered =
          collect-append_one (points "trigger") s.sent (stamped s (trigger_group p))
          ∙ ap (λ o. collect (points "trigger") s.sent ++ number_in o) (lookup-stamped _ p)
          ∙ ap (λ ns. ns ++ p ∷ []) a.triggered;
      read =
          collect-append_one (points "read") s.sent (stamped s (trigger_group p))
          ∙ rw append-nil a.read;
      opened =
          collect-append_one announced s.sent (stamped s (trigger_group p))
          ∙ rw append-nil a.opened;
      point = a.point;
    },
  )

  read_group : ℕ → Message V
  read_group n = record {
    device = nowhere;
    action = "read";
    parameter = ("group", text "primary") ∷ ("wait_group", text "readout_primary") ∷ [];
    metadata = ("pointID", number n) ∷ [];
  }

  pub read-At :
      (l : List ℕ) (t p : ℕ)
      → Does
          (At f l t p p)
          (Stubs.read scan "readout_primary" nowhere (some p) (some "primary"))
          (At f l t (suc p) p)
  unfolding Stubs.read Stubs.check_device_and_groups Stubs.exclude_nones read_group pure
  read-At l t p s a = (
    sent_one s (read_group p),
    device_msg-eq (read_group p) s,
    record {
      motors_same = a.motors_same;
      places_same = a.places_same;
      start_same = a.start_same;
      total_same = a.total_same;
      triggered =
          collect-append_one (points "trigger") s.sent (stamped s (read_group p))
          ∙ rw append-nil a.triggered;
      read =
          collect-append_one (points "read") s.sent (stamped s (read_group p))
          ∙ ap (λ o. collect (points "read") s.sent ++ number_in o) (lookup-stamped _ p)
          ∙ ap (λ ns. ns ++ p ∷ []) a.read;
      opened =
          collect-append_one announced s.sent (stamped s (read_group p)) ∙ rw append-nil a.opened;
      point = a.point;
    },
  )

module _ {V : Type 0} (scan : Settings V) (f : Frame V) (l : List ℕ) (t r p : ℕ) where
  -- The waits for a group say nothing of points.
  pub wait-At :
      (kind group : String) (g : Option String) (v : Option V)
      → Does (At f l t r p) (Stubs.wait scan kind nowhere (some group) g v) (At f l t r p)
  unfolding Stubs.wait Stubs.check_device_and_groups pure
  wait-At kind group g v =
      then-Does (At f l t r p) (At f l t r p) (At f l t r p)
        (Stubs.check_device_and_groups scan nowhere (some group)) _ (λ s a. (s, refl, a))
        (device_msg_silent scan f l t r p
          (record {
            device = nowhere;
            action = "wait";
            parameter = Stubs.exclude_nones (
                ("type", text kind)
                ∷ ("time", Stubs.maybe_value v)
                ∷ ("group", text group)
                ∷ ("wait_group", Stubs.maybe_text g)
                ∷ []);
            metadata = [];
          })
          refl refl refl)

  pub set-At :
      (d : String) (v : V) → Does (At f l t r p) (Stubs.set scan d v "scan_motor" []) (At f l t r p)
  unfolding Stubs.set
  set-At d v = search (device_msg_silent scan f)

  pub brackets-At :
      Does (At f l t r p) (Stubs.stage scan) (At f l t r p)
      × Does (At f l t r p) (Stubs.baseline_reading scan) (At f l t r p)
      × Does (At f l t r p) (Stubs.pre_scan scan) (At f l t r p)
      × Does (At f l t r p) (Stubs.unstage scan) (At f l t r p)
      × Does (At f l t r p) (Stubs.close_scan scan) (At f l t r p)
  unfolding Stubs.stage Stubs.baseline_reading Stubs.pre_scan Stubs.unstage Stubs.close_scan
  brackets-At = (
    search (device_msg_silent scan f),
    search (device_msg_silent scan f),
    search (device_msg_silent scan f),
    search (device_msg_silent scan f),
    search (device_msg_silent scan f),
  )

  set_one-At :
      (pos : List V) (i : ℕ) (d : String)
      → i < length pos
      → Does (At f l t r p) (Stubs.set_one scan pos i d) (At f l t r p)
  unfolding Stubs.set_one or_else
  set_one-At pos i d h =
      let (v, e) = get_elem?-some pos i h in
      subst
        (λ o.
          Does (At f l t r p)
            (or_else o (fail index_error) (λ w. Stubs.set scan d w "scan_motor" [])) (At f l t r p))
        (sym e) (set-At d v)

module _ {V : Type 0} (scan : Settings V) (f : Frame V) (t r p : ℕ) where
  pub yield_none-At : (l : List ℕ) → Does (At f l t r p) yield_none (At f l t r p)
  unfolding yield_none
  yield_none-At l s a = (
    record s { sent = s.sent ++ none ∷ [] },
    refl,
    record {
      motors_same = a.motors_same;
      places_same = a.places_same;
      start_same = a.start_same;
      total_same = a.total_same;
      triggered = collect-append_none (points "trigger") s.sent ∙ a.triggered;
      read = collect-append_none (points "read") s.sent ∙ a.read;
      opened = collect-append_none announced s.sent ∙ a.opened;
      point = a.point;
    },
  )

  -- The message that opens a scan of o points.
  abbrev opening : Option ℕ → Request V → String → Message V
  opening o s kind = record {
    device = nowhere;
    action = "open_scan";
    parameter =
        ("scan_motors", texts s.scan_motors)
        ∷ ("readout_priority", priorities scan.readout_priority)
        ∷ ("num_points", Stubs.maybe_number o)
        ∷ ("positions", positions s.positions.rows s.positions.scalars)
        ∷ ("scan_name", text scan.scan_name)
        ∷ ("scan_type", text kind)
        ∷ [];
    metadata = [];
  }

  announced-opening :
      (o : Option ℕ) (n : ℕ) (s : Request V) (kind : String)
      → o ≡ some n
      → announced (stamped scan f s (opening o s kind)) ≡ n ∷ []
  unfolding lookup
  announced-opening o n s kind e = rw e

  -- The opening announces the number of points.
  pub open_scan-At :
      (n : ℕ)
      → f.total ≡ some n
      → (kind : String) → Does (At f [] t r p) (Core.open_scan scan kind) (At f (n ∷ []) t r p)
  unfolding Core.open_scan Stubs.open_scan self
  open_scan-At n e kind s a =
      let m = opening s.num_pos s kind in
      (
        sent_one scan f s m,
        device_msg-eq scan f m s,
        record {
          motors_same = a.motors_same;
          places_same = a.places_same;
          start_same = a.start_same;
          total_same = a.total_same;
          triggered =
              collect-append_one (points "trigger") s.sent (stamped scan f s m)
              ∙ rw append-nil a.triggered;
          read =
              collect-append_one (points "read") s.sent (stamped scan f s m) ∙ rw append-nil a.read;
          opened =
              collect-append_one announced s.sent (stamped scan f s m)
              ∙ ap (λ ns. ns ++ announced (stamped scan f s m)) a.opened
              ∙ announced-opening s.num_pos n s kind (a.total_same ∙ e);
          point = a.point;
        },
      )
