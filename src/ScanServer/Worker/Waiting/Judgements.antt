-- ===== src/ScanServer/Worker/Waiting/Judgements.antt =====
-- What the replies to a poll are when ScanWorker judges them ready
-- (scan_server/scan_server/scan_worker.py).
use bec.Prelude.{
  ℕ, String, ◌≡◌, ◌≢◌, inl, inr, some, Bool, true, ◌&&◌, List, [], ◌∷◌, ◌==◌, string_eq, option_eq,
  nat_eq, arith, Option-cases, ◌∙◌, ap, sym, every, option_beq_iff,
}
use bec.ScanServer.Messages.{InstructionMetadata}
use bec.ScanServer.Worker.State.{DeviceReply, Poll}
use bec.ScanServer.Worker.Waiting.{
  ready, replies, match_scan_id, match_diids, judge_idle, judge_read, failed_movement, names,
}

-- Each device of the group has a reply in the poll that is to the group's instruction for it and of
-- this scan, and passes two tests.
abbrev pub AreAnswered :
    (DeviceReply → Bool)
    → (DeviceReply → Bool)
    → InstructionMetadata
    → Poll
    → List (String × ℕ)
    → Type 0
AreAnswered p q m poll [] = Unit {0}
AreAnswered p q m poll ((d, diid) ∷ group) =
    ((r : DeviceReply) × (poll d ≡ some r)
      × (r.diid ≡ some diid)
      × (r.scan_id ≡ m.scan_id)
      × (p r ≡ true)
      × (q r ≡ true))
    × AreAnswered p q m poll group

pub replies-AreAnswered :
    (p q : DeviceReply → Bool) (m : InstructionMetadata) (poll : Poll) (group : List (String × ℕ))
    (rs : List DeviceReply)
    → replies poll (names group) ≡ some rs
    → every p rs ≡ true
    → every q rs ≡ true
    → match_scan_id m rs ≡ true
    → match_diids group rs ≡ true
    → AreAnswered p q m poll group
unfolding replies match_diids
replies-AreAnswered p q m poll [] rs e hp hq hs hd = tt
replies-AreAnswered p q m poll ((d, diid) ∷ group) rs e hp hq hs hd = elim (Option-cases (poll d)) [
  | inl x ↦ ground arith
  | inr (r, x) ↦ elim (Option-cases (replies poll (names group))) [
    | inl y ↦ ground arith
    | inr (ts, y) ↦
        let split : rs ≡ r ∷ ts = ground arith in
        let hp' : (p r && every p ts) ≡ true = ap (every p) (sym split) ∙ hp in
        let hq' : (q r && every q ts) ≡ true = ap (every q) (sym split) ∙ hq in
        let hs' : match_scan_id m (r ∷ ts) ≡ true = ap (match_scan_id m) (sym split) ∙ hs in
        let hd' : (r.diid == some diid && match_diids group ts) ≡ true =
          ap (match_diids ((d, diid) ∷ group)) (sym split) ∙ hd in
        (
          (
            r,
            x,
            ground (arith, option_beq_iff r.diid (some diid)),
            ground (arith, option_beq_iff r.scan_id m.scan_id),
            ground arith,
            ground arith,
          ),
          replies-AreAnswered p q m poll group ts y (ground arith) (ground arith) (ground arith)
              (ground arith),
        )
  ]
]

pub judge_read-ready :
    (m : InstructionMetadata) (group : List (String × ℕ)) (rs : List DeviceReply)
    → judge_read m group rs ≡ ready
    → (every (λ r. r.status == 0) rs ≡ true)
      × (match_scan_id m rs ≡ true)
      × (match_diids group rs ≡ true)
unfolding judge_read
judge_read-ready m group rs e = ground arith

-- A failed movement is no reason to go on.
failed_movement_lem :
    (m : InstructionMetadata) (group : List (String × ℕ)) (rs : List DeviceReply)
    → failed_movement m group rs ≢ ready
unfolding failed_movement
failed_movement_lem m [] rs e = cc
failed_movement_lem m (g ∷ group) [] e = cc
failed_movement_lem m ((d, diid) ∷ group) (r ∷ rs) e =
    ground (arith, failed_movement_lem m group rs)

pub judge_idle-ready :
    (m : InstructionMetadata) (group : List (String × ℕ)) (rs : List DeviceReply)
    → judge_idle m group rs ≡ ready
    → (every (λ r. r.success) rs ≡ true)
      × (every (λ r. r.rid == m.rid) rs ≡ true)
      × (match_scan_id m rs ≡ true)
      × (match_diids group rs ≡ true)
unfolding judge_idle
judge_idle-ready m group rs e = ground (arith, failed_movement_lem m group rs)
