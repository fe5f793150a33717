-- ===== src/ScanServer/Scans/Offset.antt =====
-- The offset of relative scans (`_set_position_offset` of ScanBase, scan_server/scan_server/scans.py)
-- on positions that are a Python list, as those of ListScan are.
use bec.Prelude.{
  ℕ, suc, String, Option, none, some, true, false, List, [], ◌∷◌, ◌≡◌, refl, ◌∙◌, ap, subst,
  string_eq, option_eq, ◌*◌, length,
}
use bec.ScanServer.Scans.Effects.{
  Message, Request, Settings, Positions, Outcome, returns, raises, waits, Run, bind, pure, fail,
  self, modify, when, or_else, for_each, ◌>>=◌, ◌>>◌, Field,
}
use bec.ScanServer.Scans.Effects
use bec.ScanServer.Scans.Stubs
use bec.ScanServer.Scans.Base
use bec.ScanServer.Scans.Base.{Library, Entry, count, listed}
use bec.ScanServer.Scans.Kinds
use bec.ScanServer.Scans.Numbering.Yields.{get_from_rpc-Keeps}
use bec.ScanServer.Scans.Numbering.Steps.{check_limits-Keeps}
use bec.ScanServer.Scans.Hoare.{Keeps, On, run_rules}

module _ {V : Type 0} where
  -- What holds of the object if the run returns.
  abbrev pub After : {A : Type 0} → (Request V → Type 0) → Outcome V A → Type 0
  After P (returns a s) = P s
  After P (raises e s) = Unit {0}
  After P (waits s) = Unit {0}

  bind-After :
      {A B : Type 0} (P Q : Request V → Type 0) (o : Outcome V A) (f : A → Run V B)
      → After P o
      → ((a : A) (s : Request V) → P s → After Q (f a s))
      → After Q (bind o f)
  bind-After P Q (returns a s) f h k = k a s h
  bind-After P Q (raises e s) f h k = tt
  bind-After P Q (waits s) f h k = tt

  On-After : {A : Type 0} (P : Request V → Type 0) (o : Outcome V A) → On P o → After P o
  On-After P (returns a s) h = h
  On-After P (raises e s) h = tt
  On-After P (waits s) h = tt

-- The positions are p: rows and nothing else, in a list.
module _ {V : Type 0} (lib : Library V) (scan : Settings V) where
  -- The poll of one motor changes neither the positions nor their number.
  abbrev IsPlaced : Positions V → Option ℕ → Request V → Type 0
  IsPlaced p n s = (s.positions ≡ p) × (s.num_pos ≡ n)

  value_of-Keeps :
      (P : Request V → Type 0) (dev : String) (v : Stubs.Returned V) → Keeps P (Base.value_of dev v)
  unfolding Base.value_of
  value_of-Keeps P dev (Stubs.plain (Effects.readings d)) = search run_rules
  value_of-Keeps P dev (Stubs.plain (Effects.status_dict r)) = search run_rules
  value_of-Keeps P dev (Stubs.plain (Effects.object n)) = search run_rules
  value_of-Keeps P dev (Stubs.status_of r) = search run_rules

  device_msg-IsPlaced :
      (p : Positions V) (n : Option ℕ) (m : Message V)
      → Keeps (IsPlaced p n) (Stubs.device_msg scan m)
  unfolding Stubs.device_msg Stubs.device_msg_metadata modify
  device_msg-IsPlaced p n m s h = h

  read_start-IsPlaced :
      (p : Positions V) (n : Option ℕ) (dev : String)
      → Keeps (IsPlaced p n) (Base.read_start scan dev)
  unfolding Base.read_start Stubs.send_rpc_and_wait Stubs.rpc
  read_start-IsPlaced p n dev =
      search
        (
          run_rules,
          device_msg-IsPlaced p n,
          value_of-Keeps (IsPlaced p n),
          get_from_rpc-Keeps (IsPlaced p n) (λ s r h. h),
        )
        depth 14 fits 3000

  start_loop-IsPlaced :
      (p : Positions V) (n : Option ℕ)
      → Keeps (IsPlaced p n) (
          modify (λ s. record s { start_pos = [] })
          >> (self >>= λ s. for_each s.scan_motors 0 (λ i dev. Base.read_start scan dev)))
  start_loop-IsPlaced p n = search (run_rules, read_start-IsPlaced p n) depth 10

  -- What the offset makes of a list of rows, in a relative scan.
  abbrev IsExtended : List (List V) → ℕ → Request V → Type 0
  IsExtended rows n t =
      (t.positions ≡ record { is_array = false; rows = rows; scalars = t.start_pos })
      × (t.num_pos ≡ some n)

  offset-IsExtended :
      (rows : List (List V)) (n : ℕ) (s : Request V)
      → scan.relative ≡ true
      → IsPlaced (listed rows) (some n) s
      → After (IsExtended rows n) (Base.offset_positions lib scan s)
  unfolding Base.offset_positions Base.add_start when self modify or_else
  offset-IsExtended rows n s h (p, q) = rw (h, p) (refl, q)

  set_position_offset-IsExtended :
      (rows : List (List V)) (n : ℕ) (s : Request V)
      → scan.relative ≡ true
      → IsPlaced (listed rows) (some n) s
      → After (IsExtended rows n) (Base.set_position_offset lib scan s)
  unfolding Base.set_position_offset
  set_position_offset-IsExtended rows n s h p =
      bind-After (IsPlaced (listed rows) (some n)) (IsExtended rows n) _
        (λ _. Base.offset_positions lib scan)
        (On-After (IsPlaced (listed rows) (some n)) _
          (start_loop-IsPlaced (listed rows) (some n) s p))
        (λ _ t q. offset-IsExtended rows n t h q)

  abbrev counted : Run V (Unit {0})
  counted =
      Kinds.calculate_list scan
      >> Base.optimize_trajectory lib scan
      >> modify (λ s. record s { num_pos = some (count s.positions * scan.burst_at_each_point) })

  counted-IsPlaced :
      (ls : List (List V)) (s : Request V)
      → scan.optim_trajectory ≡ none
      → Kinds.lists scan.caller_args ≡ some ls
      → After
          (IsPlaced
            (listed (Kinds.zip ls))
            (some (count (listed (Kinds.zip ls)) * scan.burst_at_each_point)))
          (counted s)
  unfolding Base.optimize_trajectory Kinds.calculate_list or_else when modify pure
  counted-IsPlaced ls s o e = rw (e, o) (refl, refl)

count_rows : {V : Type 0} (rows : List (List V)) → count (listed rows) ≡ length rows
count_rows [] = refl
count_rows (r ∷ rows) = ap suc (count_rows rows)

-- A relative list scan is not shifted: whenever its preparation returns, the rows of its positions
-- are the position lists as the user gave them, and the start positions stand after the rows as
-- further positions. They are not counted in num_pos. No trajectory is optimised.
pub prepare_list_scan-eq :
    {V : Type 0} (lib : Library V) (scan : Settings V) (ls : List (List V)) (s t : Request V)
    → scan.relative ≡ true
    → scan.optim_trajectory ≡ none
    → Kinds.lists scan.caller_args ≡ some ls
    → Base.prepare_positions lib scan (Kinds.calculate_list scan) s ≡ returns tt t
    → (t.positions ≡ record { is_array = false; rows = Kinds.zip ls; scalars = t.start_pos })
      × (t.num_pos ≡ some (length (Kinds.zip ls) * scan.burst_at_each_point))
unfolding Base.prepare_positions
prepare_list_scan-eq lib scan ls s t h o e r =
    let rows = Kinds.zip ls in
    let n = count (listed rows) * scan.burst_at_each_point in
    let P = IsExtended lib scan rows n in
    let offset =
      bind-After (IsPlaced lib scan (listed rows) (some n)) P (counted lib scan s)
        (λ _. Base.set_position_offset lib scan) (counted-IsPlaced lib scan ls s o e)
        (λ _ u q. set_position_offset-IsExtended lib scan rows n u h q) in
    let all =
      bind-After P P _ (λ _. Base.check_limits lib) offset
        (λ _ u q. On-After P _ (check_limits-Keeps P lib u q)) in
    let found : After P (returns tt t) = subst (After P) r all in
    (found.0, found.1 ∙ ap (λ k. some (k * scan.burst_at_each_point)) (count_rows rows))
