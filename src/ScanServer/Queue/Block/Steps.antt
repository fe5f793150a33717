-- ===== src/ScanServer/Queue/Block/Steps.antt =====
-- One call of `next` on a queue of request blocks whose active block runs
-- (RequestBlockQueue of scan_server/scan_server/scan_queue.py).
use bec.Prelude.{
  ℕ, suc, ◌+◌, ◌≡◌, refl, Option, none, some, List, [], ◌∷◌, ◌++◌, arith, update,
  get_elem?-update_self, All, ap, sym, subst, ◌∙◌, if◌then◌else◌, String,
}
use mathlib.Core.Path.{ap₂, subst₂}
use bec.Prelude.Dict.{Dict}
use bec.ScanServer.Messages.{
  Generator, returns, yields, raises, advance, DeviceInstructionMessage, Server,
}
use bec.ScanServer.Queue.Block.{
  RequestBlock, ScanDef, item, stop_iteration, Outcome, next, resumed_block, resume_block,
  scan_def_id, resume, next_uncaught, increase_scan_number,
}
use bec.ScanServer.Queue.Block.Streams.{
  Loaded-update, stream_of, stream, streams, IsQuiet, Yields, IsSimple, IsRunning, Loaded, scans,
  running_queue, next_yields, next_stops, started, started_keeps, pull_starts, next_at_end,
  next_uncaught_yields,
}

module _ (all : List ℕ) (defs : Dict String ScanDef) (head : RequestBlock → ℕ) where
  -- What `next` does when `is` is still to come, and when the scan number will be `c` at the end.
  abbrev pub AfterNext : List (Option DeviceInstructionMessage) → ℕ → Outcome → Type 0
  AfterNext [] c o = (o.result ≡ stop_iteration) × (o.server.scan_number ≡ c)
  AfterNext (i ∷ is) c o =
      (store : List RequestBlock) × (r : ℕ) × (rs : List ℕ) × (b : RequestBlock) × (bs : List
        RequestBlock)
      × (o.result ≡ item i)
      × (o.queue ≡ running_queue all defs head store r rs)
      × Loaded store (r ∷ rs) (b ∷ bs)
      × IsRunning b
      × All IsSimple bs
      × (stream b ++ streams bs ≡ is)
      × (o.server.scan_number + scans (b ∷ bs) ≡ c)

  -- One instruction of the block `b`, which is loaded at `r`.
  yield_step :
      (s : Server) (store : List RequestBlock) (r : ℕ) (rs : List ℕ) (b : RequestBlock)
      (bs : List RequestBlock) (n : ℕ) (f : Option ℕ → Option DeviceInstructionMessage)
      (g : Generator) (o : Outcome)
      → Loaded store (r ∷ rs) (b ∷ bs)
      → IsQuiet b.instructions
      → scan_def_id b ≡ none
      → All IsSimple bs
      → b.instructions ≡ yields n f g
      → o ≡ record {
        result = item (f (advance n b.scan.point_id));
        queue = running_queue all defs head (update r (resumed_block (resume_block b)) store) r rs;
        server = s;
      }
      → AfterNext (stream b ++ streams bs) (s.scan_number + scans (b ∷ bs)) o
  unfolding resume
  yield_step s store r rs b bs n f g o l quiet alone simple e q =
      let p = b.scan.point_id in
      let b' = resumed_block (item (f (advance n p)), advance n p, g) b in
      let stored : some (resumed_block (resume_block b) b) ≡ some b' =
        ap (λ x. some (resumed_block (resume x p) b)) e in
      let tail : Loaded (update r (resumed_block (resume_block b)) store) rs bs =
        Loaded-update r (resumed_block (resume_block b)) store rs bs l.1 l.2 in
      subst (λ x. AfterNext (x ++ streams bs) (s.scan_number + scans (b ∷ bs)) o)
        (sym (ap (λ x. stream_of x p) e))
        (
          update r (resumed_block (resume_block b)) store,
          r,
          rs,
          b',
          bs,
          ap (λ x. x.result) q,
          ap (λ x. x.queue) q,
          (
            get_elem?-update_self r (resumed_block (resume_block b)) store b l.0 ∙ stored,
            l.1,
            tail,
          ),
          record { quiet = subst IsQuiet e quiet; alone = alone },
          simple,
          refl,
          ap (λ x. x.server.scan_number + scans (b ∷ bs)) q,
        )

  increase_scan_number_alone :
      (b : RequestBlock) (s : Server) (n : ℕ)
      → scan_def_id b ≡ none
      → (increase_scan_number b s).scan_number + n
        ≡ s.scan_number + (if b.is_scan then suc n else n)
  unfolding increase_scan_number
  increase_scan_number_alone b s n d = ground arith

  -- A generator that yields.
  yields_of :
      (g : Generator)
      → Yields g
      → (n : ℕ) × (f : Option ℕ → Option DeviceInstructionMessage) × (g' : Generator) × (g
          ≡ yields n f g')
  yields_of (returns n) h = absurd h
  yields_of (yields n f g) h = (n, f, g, refl)
  yields_of (raises e) h = absurd h

  -- The first pending block, once it has been made the one that runs.
  started_step :
      (s : Server) (store : List RequestBlock) (t : ℕ) (rs : List ℕ) (b : RequestBlock)
      (bs : List RequestBlock) (o : Outcome)
      → Loaded store (t ∷ rs) (started all defs head s b ∷ bs)
      → IsSimple b
      → All IsSimple bs
      → o ≡ next_uncaught head s (running_queue all defs head store t rs)
      → AfterNext (stream b ++ streams bs) (s.scan_number + scans (b ∷ bs)) o
  started_step s store t rs b bs o l simple others q =
      let (n, f, g, e) = yields_of b.instructions simple.yielding in
      let (same, same_scan, same_def, same_kind) = started_keeps all defs head s b in
      let e' : (started all defs head s b).instructions ≡ yields n f g = same ∙ e in
      let step =
        yield_step s store t rs (started all defs head s b) bs n f g o l
          (subst IsQuiet (sym same) simple.quiet) (same_def ∙ simple.alone) others e'
          (q
            ∙ next_uncaught_yields all defs head s store t rs (started all defs head s b) n f g l.0
                e') in
      subst₂
        (λ x k.
          AfterNext (x ++ streams bs) (s.scan_number + (if k then suc (scans bs) else scans bs)) o)
        (ap₂ (λ i c. stream_of i c.point_id) same same_scan) same_kind step

  -- The end of the block that runs: the next one starts, or the iteration stops.
  end_step :
      (s : Server) (store : List RequestBlock) (r : ℕ) (rs : List ℕ) (b : RequestBlock)
      (bs : List RequestBlock) (n : ℕ)
      → Loaded store (r ∷ rs) (b ∷ bs)
      → scan_def_id b ≡ none
      → All IsSimple bs
      → b.instructions ≡ returns n
      → AfterNext
          (streams bs)
          (s.scan_number + scans (b ∷ bs))
          (next head s (running_queue all defs head store r rs))
  end_step s store r [] b [] n l alone simple e =
      let (stopped, counted) = next_stops all defs head s store r b n l.0 e alone in
      (
        stopped,
        ap (λ (x : Server). x.scan_number) counted
            ∙ omega (arith, increase_scan_number_alone b s 0 alone),
      )
  end_step s store r [] b (c ∷ bs) n l alone simple e = absurd l.2
  end_step s store r (t ∷ rs) b [] n l alone simple e = absurd l.2
  end_step s store r (t ∷ rs) b (c ∷ bs) n l alone simple e =
      let store' = update r (resumed_block (resume_block b)) store in
      let s' = increase_scan_number b s in
      let l' = Loaded-update r (resumed_block (resume_block b)) store (t ∷ rs) (c ∷ bs) l.1 l.2 in
      let (store'', pulled, first, others) =
        pull_starts all defs head s' store' t rs c l'.0 simple.0.alone in
      subst
        (λ k.
          AfterNext (streams (c ∷ bs)) k
            (next head s (running_queue all defs head store r (t ∷ rs))))
        (increase_scan_number_alone b s (scans (c ∷ bs)) alone)
        (started_step s' store'' t rs c bs _ (first, l'.1, others bs l'.1 l'.2) simple.0 simple.1
          (next_at_end all defs head s store r t rs b n (running_queue all defs head store'' t rs)
            l.0 e alone pulled))

  pub running_step :
      (s : Server) (store : List RequestBlock) (r : ℕ) (rs : List ℕ) (b : RequestBlock)
      (bs : List RequestBlock) (g : Generator)
      → b.instructions ≡ g
      → Loaded store (r ∷ rs) (b ∷ bs)
      → IsRunning b
      → All IsSimple bs
      → AfterNext
          (stream b ++ streams bs)
          (s.scan_number + scans (b ∷ bs))
          (next head s (running_queue all defs head store r rs))
  running_step s store r rs b bs (returns n) e l runs simple =
      subst
        (λ x.
          AfterNext (x ++ streams bs) (s.scan_number + scans (b ∷ bs))
            (next head s (running_queue all defs head store r rs)))
        (sym (ap (λ x. stream_of x b.scan.point_id) e))
        (end_step s store r rs b bs n l runs.alone simple e)
  running_step s store r rs b bs (yields n f g) e l runs simple =
      yield_step s store r rs b bs n f g _ l runs.quiet runs.alone simple e
        (next_yields all defs head s store r rs b n f g l.0 e)
  running_step s store r rs b bs (raises x) e l runs simple = absurd (subst IsQuiet e runs.quiet)
