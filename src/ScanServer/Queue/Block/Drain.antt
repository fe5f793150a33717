-- ===== src/ScanServer/Queue/Block/Drain.antt =====
-- What comes out of a queue of request blocks when it is iterated to its end
-- (RequestBlockQueue of scan_server/scan_server/scan_queue.py).
use bec.Prelude.{
  ℕ, zero, suc, ◌+◌, ◌<◌, ◌≡◌, refl, Option, List, [], ◌∷◌, ◌++◌, length, arith, All, ap, sym,
  subst, ◌∙◌, if◌then◌else◌, String,
}
use mathlib.Core.Path.{ap₂, subst₂}
use bec.Prelude.Dict.{Dict}
use bec.ScanServer.Messages.{DeviceInstructionMessage, Server}
use bec.ScanServer.Queue.Block.{
  RequestBlock, RequestBlockQueue, ScanDef, item, stop_iteration, scan_abortion, error, Outcome,
  next,
}
use bec.ScanServer.Queue.Block.Streams.{
  stream_of, stream, streams, IsQuiet, IsSimple, IsRunning, Loaded, scans, idle_queue,
  running_queue, pull_starts, next_from_idle, started_keeps, started,
}
use bec.ScanServer.Queue.Block.Steps.{AfterNext, running_step}

-- The answer of one call of `next`, and what `rec` makes of the rest.
abbrev pub carry :
    (Server → RequestBlockQueue → List (Option DeviceInstructionMessage) × Server)
    → Outcome
    → List (Option DeviceInstructionMessage) × Server
carry rec o =
    let rest = rec o.server o.queue in
    elim o.result [
      | item i ↦ (i ∷ rest.0, rest.1)
      | stop_iteration ↦ ([], o.server)
      | scan_abortion ↦ ([], o.server)
      | error e ↦ ([], o.server)
    ]

-- Iterating a queue of request blocks: what it gives, and the scan server after it.
unfoldable pub drain :
    (RequestBlock → ℕ)
    → ℕ
    → Server
    → RequestBlockQueue
    → List (Option DeviceInstructionMessage) × Server
drain head zero s q = ([], s)
drain head (suc fuel) s q = carry (drain head fuel) (next head s q)

drain_stops :
    (head : RequestBlock → ℕ) (fuel : ℕ) (s : Server) (q : RequestBlockQueue)
    → (next head s q).result ≡ stop_iteration
    → drain head (suc fuel) s q ≡ ([], (next head s q).server)
unfolding drain
drain_stops head fuel s q e = rw (e, carry)

drain_yields :
    (head : RequestBlock → ℕ) (fuel : ℕ) (s : Server) (q : RequestBlockQueue)
    (i : Option DeviceInstructionMessage)
    → (next head s q).result ≡ item i
    → drain head (suc fuel) s q ≡ (
      i ∷ (drain head fuel (next head s q).server (next head s q).queue).0,
      (drain head fuel (next head s q).server (next head s q).queue).1,
    )
unfolding drain
drain_yields head fuel s q i e = rw (e, carry)

drain_same :
    (head : RequestBlock → ℕ) (fuel : ℕ) (s : Server) (q q' : RequestBlockQueue)
    → next head s q ≡ next head s q'
    → drain head (suc fuel) s q ≡ drain head (suc fuel) s q'
unfolding drain
drain_same head fuel s q q' e = ap (carry (drain head fuel)) e

module _ (all : List ℕ) (defs : Dict String ScanDef) (head : RequestBlock → ℕ) where
  drain_running :
      (fuel : ℕ) (s : Server) (store : List RequestBlock) (r : ℕ) (rs : List ℕ) (b : RequestBlock)
      (bs : List RequestBlock) (is : List (Option DeviceInstructionMessage)) (c : ℕ)
      → stream b ++ streams bs ≡ is
      → s.scan_number + scans (b ∷ bs) ≡ c
      → length is < fuel
      → Loaded store (r ∷ rs) (b ∷ bs)
      → IsRunning b
      → All IsSimple bs
      → ((drain head fuel s (running_queue all defs head store r rs)).0 ≡ is)
        × ((drain head fuel s (running_queue all defs head store r rs)).1.scan_number ≡ c)
  drain_running zero s store r rs b bs is c e k h l runs simple = absurd (omega arith)
  drain_running (suc fuel) s store r rs b bs [] c e k h l runs simple =
      let q = running_queue all defs head store r rs in
      let (stopped, counted) =
        subst₂ (λ x y. AfterNext all defs head x y (next head s q)) e k
          (running_step all defs head s store r rs b bs b.instructions refl l runs simple) in
      let done = drain_stops head fuel s q stopped in
      (ap (λ x. x.0) done, ap (λ x. x.1.scan_number) done ∙ counted)
  drain_running (suc fuel) s store r rs b bs (i ∷ is) c e k h l runs simple =
      let q = running_queue all defs head store r rs in
      let (store', r', rs', b', bs', given, left, l', runs', simple', e', k') =
        subst₂ (λ x y. AfterNext all defs head x y (next head s q)) e k
          (running_step all defs head s store r rs b bs b.instructions refl l runs simple) in
      let o = next head s q in
      let (items, number) =
        drain_running fuel o.server store' r' rs' b' bs' is c e' k' (omega arith) l' runs'
          simple' in
      let more = drain_yields head fuel s q i given in
      let here : drain head fuel o.server o.queue
          ≡ drain head fuel o.server (running_queue all defs head store' r' rs') =
        ap (drain head fuel o.server) left in
      (
        ap (λ x. x.0) more ∙ ap (λ x. i ∷ x.0) here ∙ ap (λ x. i ∷ x) items,
        ap (λ x. x.1.scan_number) more ∙ ap (λ x. x.1.scan_number) here ∙ number,
      )

  next_nothing :
      (s : Server) (store : List RequestBlock)
      → ((next head s (idle_queue all defs head store [])).result ≡ stop_iteration)
        × ((next head s (idle_queue all defs head store [])).server ≡ s)
  unfolding next
  next_nothing s store = (refl, refl)

  -- A queue of request blocks that raise nothing, yield something each and belong to no scan
  -- definition gives, when it is iterated to its end, the instructions of the first block, then those
  -- of the second, and so on to the last, and nothing else. Each block that is a scan has then
  -- increased the scan number by one. (`fuel` is a bound on the calls of `next`.)
  pub drain-streams :
      (fuel : ℕ) (s : Server) (store : List RequestBlock) (rs : List ℕ) (bs : List RequestBlock)
      → length (streams bs) < fuel
      → Loaded store rs bs
      → All IsSimple bs
      → ((drain head fuel s (idle_queue all defs head store rs)).0 ≡ streams bs)
        × ((drain head fuel s (idle_queue all defs head store rs)).1.scan_number
            ≡ s.scan_number + scans bs)
  drain-streams zero s store rs bs h l simple = absurd (omega arith)
  drain-streams (suc fuel) s store [] [] h l simple =
      let none_left = next_nothing s store in
      let done = drain_stops head fuel s (idle_queue all defs head store []) none_left.0 in
      (
        ap (λ x. x.0) done,
        ap (λ x. x.1.scan_number) done
            ∙ ap (λ (x : Server). x.scan_number) none_left.1
            ∙ omega arith,
      )
  drain-streams (suc fuel) s store [] (b ∷ bs) h l simple = absurd l
  drain-streams (suc fuel) s store (r ∷ rs) [] h l simple = absurd l
  drain-streams (suc fuel) s store (r ∷ rs) (b ∷ bs) h l simple =
      let (store', pulled, first, others) =
        pull_starts all defs head s store r rs b l.0 simple.0.alone in
      let same =
        drain_same head fuel s _ _
          (next_from_idle all defs head s store (r ∷ rs) r rs store' pulled) in
      let (kept, kept_scan, kept_def, kept_kind) = started_keeps all defs head s b in
      let (items, number) =
        drain_running (suc fuel) s store' r rs (started all defs head s b) bs (streams (b ∷ bs))
          (s.scan_number + scans (b ∷ bs))
          (ap₂ (λ x c. stream_of x c.point_id ++ streams bs) kept kept_scan)
          (ap (λ k. s.scan_number + (if k then suc (scans bs) else scans bs)) kept_kind) h
          (first, l.1, others bs l.1 l.2)
          (record {
            quiet = subst IsQuiet (sym kept) simple.0.quiet;
            alone = kept_def ∙ simple.0.alone;
          })
          simple.1 in
      (ap (λ x. x.0) same ∙ items, ap (λ x. x.1.scan_number) same ∙ number)
