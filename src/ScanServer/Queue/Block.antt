-- ===== src/ScanServer/Queue/Block.antt =====
-- RequestBlock and RequestBlockQueue of scan_server/scan_server/scan_queue.py. A block stands in
-- `store` where it was appended; the two queues and `active_rb` hold references to it.
pub mod Streams
pub mod Steps
pub mod Drain
use bec.Prelude.{
  ℕ, ◌+◌, String, Option, none, some, Bool, ◌||◌, ◌&&◌, List, [], ◌∷◌, ◌++◌, map, ◌==◌, is_some,
  if◌then◌else◌, length, get_elem?, deref, update, not, string_eq,
}
use bec.Prelude.Dict.{Dict, lookup, insert}
use bec.ScanServer.Messages.{
  ScanQueueMessage, Scan, Generator, returns, yields, raises, advance, DeviceInstructionMessage,
  Exception, limit_error, other_error, Server, scan_request,
}

pub record RequestBlock : Type 0 where
  pub msg : ScanQueueMessage
  pub scan : Scan
  pub is_scan : Bool
  pub instructions : Generator
  pub scan_id : Option String
  pub assigned_scan_number : Option ℕ
  pub scan_motors : List String
  pub readout_priority : Dict String (List String)

abbrev pub scan_def_id : RequestBlock → Option String
scan_def_id rb = rb.msg.metadata.scan_def_id

-- `scan` is what the assembler returns for the message, and `uuid` what uuid4 returns.
unfoldable pub request_block : Scan → ScanQueueMessage → String → RequestBlock
request_block scan msg uuid = record {
  msg = msg;
  scan = scan;
  is_scan = scan.is_scan_base;
  instructions = scan.run;
  scan_id = if scan.is_scan_base || is_some msg.metadata.scan_def_id then some uuid else none;
  assigned_scan_number = none;
  scan_motors = if scan.caller_args then scan.scan_motors else [];
  readout_priority = scan.readout_priority;
}

-- An entry of the dictionary scan_def_ids.
pub record ScanDef : Type 0 where
  pub scan_id : Option String
  pub point_id : ℕ

pub record RequestBlockQueue : Type 0 where
  pub store : List RequestBlock
  pub request_blocks_queue : List ℕ
  pub request_blocks : List ℕ
  pub active_rb : Option ℕ
  pub scan_def_ids : Dict String ScanDef

unfoldable pub empty_block_queue : RequestBlockQueue
empty_block_queue = record {
  store = [];
  request_blocks_queue = [];
  request_blocks = [];
  active_rb = none;
  scan_def_ids = [];
}

abbrev pub scan_ids : RequestBlockQueue → List (Option String)
scan_ids q = map (λ rb. rb.scan_id) (deref q.store q.request_blocks)

abbrev pub is_scans : RequestBlockQueue → List Bool
is_scans q = map (λ rb. rb.is_scan) (deref q.store q.request_blocks)

-- The block that runs.
abbrev pub active : RequestBlockQueue → Option RequestBlock
active q = elim q.active_rb [ none ↦ none | some r ↦ get_elem? q.store r ]

-- The lookup of an optional scan_def_id.
abbrev pub find_scan_def : Option String → RequestBlockQueue → Option ScanDef
find_scan_def none q = none
find_scan_def (some d) q = lookup d q.scan_def_ids

-- `_update_scan_def_id`: the block and the dictionary after it. A second block of a scan
-- definition takes the scan id of the first.
update_scan_def_id_of :
    Option String → RequestBlock → RequestBlockQueue → RequestBlock × Dict String ScanDef
update_scan_def_id_of none rb q = (rb, q.scan_def_ids)
update_scan_def_id_of (some d) rb q = elim (lookup d q.scan_def_ids) [
  | some def ↦ (record rb { scan_id = def.scan_id }, q.scan_def_ids)
  | none ↦ (rb, insert d (record { scan_id = rb.scan_id; point_id = 0 }) q.scan_def_ids)
]

unfoldable pub update_scan_def_id :
    RequestBlock → RequestBlockQueue → RequestBlock × Dict String ScanDef
unfolding update_scan_def_id_of
update_scan_def_id rb q = update_scan_def_id_of (scan_def_id rb) rb q

unfoldable pub append_request_block : RequestBlock → RequestBlockQueue → RequestBlockQueue
append_request_block rb q = record q {
  store = q.store ++ rb ∷ [];
  request_blocks_queue = q.request_blocks_queue ++ length q.store ∷ [];
  request_blocks = q.request_blocks ++ length q.store ∷ [];
}

-- `append`, for a message that the assembler accepts.
unfoldable pub append : Scan → ScanQueueMessage → String → RequestBlockQueue → RequestBlockQueue
unfolding request_block update_scan_def_id append_request_block
append scan msg uuid q =
    let (rb, defs) = update_scan_def_id (request_block scan msg uuid) q in
    append_request_block rb (record q { scan_def_ids = defs })

unfoldable pub flush_request_blocks : RequestBlockQueue → RequestBlockQueue
flush_request_blocks q = record q { request_blocks = []; request_blocks_queue = [] }

-- `_update_point_id` with the setting of an attribute that only some scans have.
unfoldable pub update_point_id : RequestBlockQueue → RequestBlock → RequestBlock
update_point_id q rb = elim (find_scan_def (scan_def_id rb) q) [
  | none ↦ rb
  | some def ↦ record rb {
    scan = record (rb.scan) {
      point_id = if is_some rb.scan.point_id then some def.point_id else none;
    };
  }
]

-- `assign_scan_number`; `head` is scanIDs_head.
unfoldable pub assign_scan_number : Server → (RequestBlock → ℕ) → RequestBlock → RequestBlock
assign_scan_number server head rb =
    if rb.is_scan
    then record rb { assigned_scan_number = some (server.scan_number + head rb) }
    else rb

-- What `next` gives: a value, the end of the iteration, an abortion of the scan, or another error.
pub data Next {ℓ} (A : Type ℓ) : Type ℓ where
  item : A → Next A
  stop_iteration : Next A
  scan_abortion : Next A
  error : Exception → Next A

module _ (server : Server) (head : RequestBlock → ℕ) where
  -- The rest of `_pull_request_block` once no block is active; none where it raises StopIteration.
  unfoldable pub pull_next : List ℕ → RequestBlockQueue → Option RequestBlockQueue
  unfolding update_point_id assign_scan_number
  pull_next [] q = none
  pull_next (r ∷ rest) q = some (record q {
    request_blocks_queue = rest;
    active_rb = some r;
    store = update r (λ rb. assign_scan_number server head (update_point_id q rb)) q.store;
  })

  unfoldable pub pull_request_block : RequestBlockQueue → Option RequestBlockQueue
  unfolding pull_next
  pull_request_block q = elim q.active_rb [
    | some r ↦ some q
    | none ↦ pull_next q.request_blocks_queue q
  ]

-- `increase_scan_number`, for the active block.
unfoldable pub increase_scan_number : RequestBlock → Server → Server
increase_scan_number rb server =
    let in_scan_def = is_some (scan_def_id rb) in
    if not rb.is_scan && not in_scan_def
    then server
    else if not in_scan_def || rb.msg.scan_type == "close_scan_def"
    then record server {
      scan_number = server.scan_number + 1;
      dataset_number =
          if rb.msg.metadata.dataset_id_on_hold
          then server.dataset_number
          else server.dataset_number + 1;
    }
    else server

-- One call of `next` on a generator and on the point counter of its scan.
abbrev pub Resumed : Type 0
Resumed = Next (Option DeviceInstructionMessage) × Option ℕ × Generator

unfoldable pub resume : Generator → Option ℕ → Resumed
resume (returns n) p = (stop_iteration, advance n p, returns 0)
resume (yields n f g) p = (item (f (advance n p)), advance n p, g)
resume (raises e) p = (error e, p, returns 0)

-- The block after its generator has been resumed.
abbrev pub resumed_block : Resumed → RequestBlock → RequestBlock
resumed_block (out, p, g) rb = record rb {
  scan = record (rb.scan) { point_id = p };
  instructions = g;
}

abbrev pub resume_block : RequestBlock → Resumed
resume_block rb = resume rb.instructions rb.scan.point_id

-- What a call of `next` on the queue leaves behind.
pub record Outcome : Type 0 where
  pub result : Next (Option DeviceInstructionMessage)
  pub queue : RequestBlockQueue
  pub server : Server

-- `raise_alarm` with the class name of the exception.
abbrev pub raise_alarm : RequestBlock → Exception → Server → Server
raise_alarm rb (limit_error text) s = record s {
  alarms = record { source = scan_request rb.msg; alarm_type = "LimitError" } ∷ s.alarms;
}
raise_alarm rb (other_error name) s = record s {
  alarms = record { source = scan_request rb.msg; alarm_type = name } ∷ s.alarms;
}

-- The point counter of a scan definition is kept when one of its blocks ends.
unfoldable pub save_point_id : RequestBlock → RequestBlockQueue → RequestBlockQueue
save_point_id rb q = elim (find_scan_def (scan_def_id rb) q) [
  | none ↦ q
  | some def ↦ elim rb.scan.point_id [
    | none ↦ q
    | some p ↦ elim (scan_def_id rb) [
      | none ↦ q
      | some d ↦ record q { scan_def_ids = insert d (record def { point_id = p }) q.scan_def_ids }
    ]
  ]
]

module _ (head : RequestBlock → ℕ) where
  -- `next(self.active_rb.instructions)` inside the handler of StopIteration: nothing is caught.
  unfoldable pub next_uncaught : Server → RequestBlockQueue → Outcome
  unfolding resume
  next_uncaught s q = elim q.active_rb [
    | none ↦ record { result = stop_iteration; queue = q; server = s }
    | some r ↦ elim (get_elem? q.store r) [
      | none ↦ record { result = stop_iteration; queue = q; server = s }
      | some rb ↦ record {
        result = (resume_block rb).0;
        queue = record q { store = update r (resumed_block (resume_block rb)) q.store };
        server = s;
      }
    ]
  ]

  -- The handler of StopIteration, for the block `rb` that ended.
  unfoldable pub next_block : RequestBlock → Server → RequestBlockQueue → Outcome
  unfolding save_point_id increase_scan_number pull_request_block next_uncaught
  next_block rb s q =
      let s' = increase_scan_number rb s in
      let q' = record (save_point_id rb q) { active_rb = none } in
      elim (pull_request_block s' head q') [
        | none ↦ record { result = stop_iteration; queue = q'; server = s' }
        | some q'' ↦ next_uncaught s' q''
      ]

  -- What the `try` statement does with an answer of the active block's generator.
  unfoldable pub handle : ℕ → RequestBlock → Resumed → Server → RequestBlockQueue → Outcome
  unfolding next_block
  handle r rb (item i, p, g) s q = record {
    result = item i;
    queue = record q { store = update r (resumed_block (item i, p, g)) q.store };
    server = s;
  }
  handle r rb (stop_iteration, p, g) s q =
      next_block (resumed_block (stop_iteration, p, g) rb) s
        (record q { store = update r (resumed_block (stop_iteration, p, g)) q.store })
  handle r rb (scan_abortion, p, g) s q = record {
    result = scan_abortion;
    queue = record q { store = update r (resumed_block (scan_abortion, p, g)) q.store };
    server = s;
  }
  handle r rb (error e, p, g) s q = record {
    result = scan_abortion;
    queue = record q { store = update r (resumed_block (error e, p, g)) q.store };
    server = raise_alarm rb e s;
  }

  next_active : Server → RequestBlockQueue → Outcome
  unfolding handle resume
  next_active s q = elim q.active_rb [
    | none ↦ record { result = stop_iteration; queue = q; server = s }
    | some r ↦ elim (get_elem? q.store r) [
      | none ↦ record { result = stop_iteration; queue = q; server = s }
      | some rb ↦ handle r rb (resume_block rb) s q
    ]
  ]

  -- `__next__`
  unfoldable pub next : Server → RequestBlockQueue → Outcome
  unfolding pull_request_block next_active
  next s q = elim (pull_request_block s head q) [
    | none ↦ record { result = stop_iteration; queue = q; server = s }
    | some q' ↦ next_active s q'
  ]
