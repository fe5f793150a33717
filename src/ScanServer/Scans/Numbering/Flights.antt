-- ===== src/ScanServer/Scans/Numbering/Flights.antt =====
-- The loops of the fly scans, and of the scans that follow a motor, number their messages without a gap
-- (scan_server/scan_server/scans.py).
use bec.Prelude.{
  ℕ, zero, suc, nat_eq, String, Option, none, some, Bool, true, false, List, [], ◌∷◌, ◌≡◌,
  string_eq,
}
use bec.Prelude.Dict.{has}
use bec.ScanServer.Scans.Effects.{Request, Settings, StatusReply}
use bec.ScanServer.Scans.Base.{Entry, row, scalar}
use bec.ScanServer.Scans.Flyers
use bec.ScanServer.Scans.Hoare.{Keeps, run_rules}
use bec.ScanServer.Scans.Numbering.{IsNumbered}
use bec.ScanServer.Scans.Numbering.Yields.{
  trigger-Keeps, read-Keeps, read_and_wait-Keeps, publish_data_as_read-Keeps,
}
use bec.ScanServer.Scans.Numbering.Runs.{waits-Keeps}

module _ {V : Type 0} (s : Settings V) (fresh : has "DIID" s.metadata ≡ false) where
  note_progress-IsNumbered :
      (o : Option ℕ) (r : Request V) → IsNumbered r → IsNumbered (Flyers.note_progress o r)
  note_progress-IsNumbered none r h = h
  note_progress-IsNumbered (some zero) r h = h
  note_progress-IsNumbered (some (suc n)) r h = h

  pub await_flyer-Keeps :
      (rid : Option String) (diid : ℕ) (polls : List (Option StatusReply))
      → Keeps {V = V} IsNumbered (Flyers.await_flyer rid diid polls)
  unfolding Flyers.await_flyer
  await_flyer-Keeps rid diid [] = waits-Keeps IsNumbered
  await_flyer-Keeps rid diid (p ∷ []) = waits-Keeps IsNumbered
  await_flyer-Keeps rid diid (p ∷ q ∷ polls) =
      search (run_rules, note_progress-IsNumbered, await_flyer-Keeps rid diid polls)

  pub read_until_idle-Keeps :
      (rid : Option String) (diid : ℕ) (polls : List (Option StatusReply))
      → Keeps IsNumbered (Flyers.read_until_idle s rid diid polls)
  unfolding Flyers.read_until_idle
  read_until_idle-Keeps rid diid [] = search (run_rules, read_and_wait-Keeps s fresh, waits-Keeps)
  read_until_idle-Keeps rid diid (p ∷ polls) =
      search (run_rules, read_and_wait-Keeps s fresh, read_until_idle-Keeps rid diid polls)

  pub publish_readbacks-Keeps :
      (flyer : String) (polls : List (Bool × Option ℕ))
      → Keeps IsNumbered (Flyers.publish_readbacks s flyer polls)
  unfolding Flyers.publish_readbacks
  publish_readbacks-Keeps flyer [] = waits-Keeps IsNumbered
  publish_readbacks-Keeps flyer ((true, r) ∷ polls) = search run_rules
  publish_readbacks-Keeps flyer ((false, none) ∷ polls) = publish_readbacks-Keeps flyer polls
  publish_readbacks-Keeps flyer ((false, some r) ∷ polls) =
      search (run_rules, publish_data_as_read-Keeps s fresh, publish_readbacks-Keeps flyer polls)

  pub first_of-Keeps : (p : Option (Entry V)) → Keeps IsNumbered (Flyers.first_of p)
  first_of-Keeps none = search run_rules
  first_of-Keeps (some (scalar v)) = search run_rules
  first_of-Keeps (some (row [])) = search run_rules
  first_of-Keeps (some (row (v ∷ vs))) = search run_rules

  line_point-Keeps : Keeps IsNumbered (Flyers.line_point s)
  unfolding Flyers.line_point
  line_point-Keeps = search (run_rules, trigger-Keeps s fresh, read-Keeps s fresh) depth 10

  pub follow_motor-Keeps :
      (is_close less : V → V → Bool) (rs : List (Option V))
      → Keeps IsNumbered (Flyers.follow_motor s is_close less rs)
  unfolding Flyers.follow_motor
  follow_motor-Keeps is_close less [] = search (run_rules, waits-Keeps)
  follow_motor-Keeps is_close less (r ∷ rs) =
      search (run_rules, first_of-Keeps, line_point-Keeps, follow_motor-Keeps is_close less rs)
        depth 14 fits 3000

  pub first_motor-Keeps : Keeps {V = V} IsNumbered Flyers.first_motor
  first_motor-Keeps = search run_rules
