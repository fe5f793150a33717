-- ===== src/ScanServer/Queue/Block/Streams.antt =====
-- One call of `next` on a queue of request blocks, as seen from what is still to come out of it
-- (RequestBlockQueue of scan_server/scan_server/scan_queue.py).
use bec.Prelude.{
  ℕ, suc, ◌≡◌, refl, ◌≢◌, Option, none, some, List, [], ◌∷◌, ◌++◌, arith, get_elem?, update,
  get_elem?-update_self, get_elem?-update_ne, All, ap, ◌∙◌, if◌then◌else◌, String,
}
use bec.Prelude.Dict.{Dict}
use bec.ScanServer.Messages.{
  Generator, returns, yields, raises, advance, DeviceInstructionMessage, Server,
}
use bec.ScanServer.Queue.Block.{
  RequestBlock, RequestBlockQueue, ScanDef, item, stop_iteration, next, resumed_block, resume_block,
  assign_scan_number, update_point_id, scan_def_id, next_uncaught, pull_request_block,
  increase_scan_number, pull_next,
}

-- The instructions of a generator from a state of the point counter on.
abbrev pub stream_of : Generator → Option ℕ → List (Option DeviceInstructionMessage)
stream_of (returns n) p = []
stream_of (yields n f g) p = f (advance n p) ∷ stream_of g (advance n p)
stream_of (raises e) p = []

abbrev pub stream : RequestBlock → List (Option DeviceInstructionMessage)
stream rb = stream_of rb.instructions rb.scan.point_id

abbrev pub streams : List RequestBlock → List (Option DeviceInstructionMessage)
streams [] = []
streams (b ∷ bs) = stream b ++ streams bs

-- A generator that raises nothing.
abbrev pub IsQuiet : Generator → Type 0
IsQuiet (returns n) = Unit {0}
IsQuiet (yields n f g) = IsQuiet g
IsQuiet (raises e) = ⊥

abbrev pub Yields : Generator → Type 0
Yields (returns n) = ⊥
Yields (yields n f g) = Unit {0}
Yields (raises e) = ⊥

-- A block that raises nothing, yields something and belongs to no scan definition.
pub record IsSimple (rb : RequestBlock) : Type 0 where
  pub quiet : IsQuiet rb.instructions
  pub yielding : Yields rb.instructions
  pub alone : scan_def_id rb ≡ none

-- The block that runs may have yielded all of its instructions.
pub record IsRunning (rb : RequestBlock) : Type 0 where
  pub quiet : IsQuiet rb.instructions
  pub alone : scan_def_id rb ≡ none

-- The references name these blocks, and each of them one of its own.
abbrev pub Loaded : List RequestBlock → List ℕ → List RequestBlock → Type 0
Loaded store [] [] = Unit {0}
Loaded store [] (b ∷ bs) = ⊥
Loaded store (r ∷ rs) [] = ⊥
Loaded store (r ∷ rs) (b ∷ bs) =
    (get_elem? store r ≡ some b) × All (λ s. r ≢ s) rs × Loaded store rs bs

pub Loaded-update :
    (r : ℕ) (f : RequestBlock → RequestBlock) (store : List RequestBlock) (rs : List ℕ)
    (bs : List RequestBlock)
    → All (λ s. r ≢ s) rs
    → Loaded store rs bs
    → Loaded (update r f store) rs bs
Loaded-update r f store [] [] h l = tt
Loaded-update r f store [] (b ∷ bs) h l = l
Loaded-update r f store (s ∷ rs) [] h l = l
Loaded-update r f store (s ∷ rs) (b ∷ bs) h l =
    (get_elem?-update_ne r s f store h.0 ∙ l.0, l.1, Loaded-update r f store rs bs h.1 l.2)

abbrev pub scans : List RequestBlock → ℕ
scans [] = 0
scans (b ∷ bs) = if b.is_scan then suc (scans bs) else scans bs

module _ (all : List ℕ) (defs : Dict String ScanDef) (head : RequestBlock → ℕ) where
  abbrev pub idle_queue : List RequestBlock → List ℕ → RequestBlockQueue
  idle_queue store rs = record {
    store = store;
    request_blocks_queue = rs;
    request_blocks = all;
    active_rb = none;
    scan_def_ids = defs;
  }

  abbrev pub running_queue : List RequestBlock → ℕ → List ℕ → RequestBlockQueue
  running_queue store r rs = record {
    store = store;
    request_blocks_queue = rs;
    request_blocks = all;
    active_rb = some r;
    scan_def_ids = defs;
  }

  -- The block that runs yields its next instruction.
  pub next_yields :
      (s : Server) (store : List RequestBlock) (r : ℕ) (rs : List ℕ) (b : RequestBlock) (n : ℕ)
      (f : Option ℕ → Option DeviceInstructionMessage) (g : Generator)
      → get_elem? store r ≡ some b
      → b.instructions ≡ yields n f g
      → next head s (running_queue store r rs) ≡ record {
        result = item (f (advance n b.scan.point_id));
        queue = running_queue (update r (resumed_block (resume_block b)) store) r rs;
        server = s;
      }
  unfolding next
  next_yields s store r rs b n f g h e = ground arith

  -- The block that runs is at its end, and it is the last one.
  pub next_stops :
      (s : Server) (store : List RequestBlock) (r : ℕ) (b : RequestBlock) (n : ℕ)
      → get_elem? store r ≡ some b
      → b.instructions ≡ returns n
      → scan_def_id b ≡ none
      → ((next head s (running_queue store r [])).result ≡ stop_iteration)
        × ((next head s (running_queue store r [])).server ≡ increase_scan_number b s)
  unfolding next
  next_stops s store r b n h e d = (ground arith, ground arith)

  -- A block as it starts to run.
  abbrev pub started : Server → RequestBlock → RequestBlock
  started s b = assign_scan_number s head b

  pub started_keeps :
      (s : Server) (b : RequestBlock)
      → ((started s b).instructions ≡ b.instructions)
        × ((started s b).scan ≡ b.scan)
        × (scan_def_id (started s b) ≡ scan_def_id b)
        × ((started s b).is_scan ≡ b.is_scan)
  unfolding assign_scan_number
  started_keeps s b = ground arith

  update_point_id_alone :
      (q : RequestBlockQueue) (b : RequestBlock) → scan_def_id b ≡ none → update_point_id q b ≡ b
  unfolding update_point_id
  update_point_id_alone q b d = ground arith

  -- A pull makes the first block of the queue the one that runs.
  pub pull_starts :
      (s : Server) (store : List RequestBlock) (r : ℕ) (rs : List ℕ) (b : RequestBlock)
      → get_elem? store r ≡ some b
      → scan_def_id b ≡ none
      → (store' : List RequestBlock) × (pull_next s head (r ∷ rs) (idle_queue store (r ∷ rs))
          ≡ some (running_queue store' r rs))
        × (get_elem? store' r ≡ some (started s b))
        × ((bs : List RequestBlock)
            → All (λ t. r ≢ t) rs
            → Loaded store rs bs
            → Loaded store' rs bs)
  unfolding pull_next
  pull_starts s store r rs b h d =
      let f : RequestBlock → RequestBlock =
        λ rb. assign_scan_number s head (update_point_id (idle_queue store (r ∷ rs)) rb) in
      (
        update r f store,
        refl,
        get_elem?-update_self r f store b h
            ∙ ap (λ rb. some (assign_scan_number s head rb)) (update_point_id_alone _ b d),
        λ bs a l. Loaded-update r f store rs bs a l,
      )

  -- What `next` does at the end of the block that runs, when another one waits.
  pub next_at_end :
      (s : Server) (store : List RequestBlock) (r t : ℕ) (rs : List ℕ) (b : RequestBlock) (n : ℕ)
      (q : RequestBlockQueue)
      → get_elem? store r ≡ some b
      → b.instructions ≡ returns n
      → scan_def_id b ≡ none
      → pull_next
          (increase_scan_number b s)
          head
          (t ∷ rs)
          (idle_queue (update r (resumed_block (resume_block b)) store) (t ∷ rs))
        ≡ some q
      → next head s (running_queue store r (t ∷ rs))
        ≡ next_uncaught head (increase_scan_number b s) q
  unfolding next
  next_at_end s store r t rs b n q h e d p = ground arith

  pub next_uncaught_yields :
      (s : Server) (store : List RequestBlock) (r : ℕ) (rs : List ℕ) (b : RequestBlock) (n : ℕ)
      (f : Option ℕ → Option DeviceInstructionMessage) (g : Generator)
      → get_elem? store r ≡ some b
      → b.instructions ≡ yields n f g
      → next_uncaught head s (running_queue store r rs) ≡ record {
        result = item (f (advance n b.scan.point_id));
        queue = running_queue (update r (resumed_block (resume_block b)) store) r rs;
        server = s;
      }
  unfolding next_uncaught
  next_uncaught_yields s store r rs b n f g h e = ground arith

  pub next_from_idle :
      (s : Server) (store : List RequestBlock) (rs : List ℕ) (r : ℕ) (rest : List ℕ)
      (store' : List RequestBlock)
      → pull_next s head rs (idle_queue store rs) ≡ some (running_queue store' r rest)
      → next head s (idle_queue store rs) ≡ next head s (running_queue store' r rest)
  unfolding next
  next_from_idle s store rs r rest store' p = rw (p, pull_request_block)
