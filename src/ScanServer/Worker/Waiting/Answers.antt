-- ===== src/ScanServer/Worker/Waiting/Answers.antt =====
-- What has been answered when a wait of ScanWorker ends (scan_server/scan_server/scan_worker.py).
use bec.Prelude.{
  ℕ, String, ◌≡◌, ◌⊎◌, refl, inl, inr, none, some, List, [], ◌∷◌, ◌++◌, ◌==◌, string_eq, option_eq,
  nat_eq, arith, Option-cases, ◌∙◌, ap, sym,
}
use bec.Prelude.Dict.{Dict, lookup, insert}
use bec.ScanServer.Messages.{DeviceInstructionMessage, InstructionMetadata}
use bec.ScanServer.Worker.State.{
  DeviceReply, Poll, ScanWorker, Result, continues, scan_abortion, blocks, raises, and_then,
  check_for_interruption, Exception, send, movement_failed,
}
use bec.ScanServer.Worker.State.Interruption.{Checked, Differs, check_for_interruption-Checked}
use bec.ScanServer.Worker.Waiting.{
  DeviceManager, Verdict, ready, retry, failed, breaks, replies, wait_for, judge_read, among,
  others, names, wait_group_of, wait_for_group, get_devices_from_instruction, leave_group,
}
use bec.ScanServer.Worker.Waiting.Judgements.{AreAnswered, replies-AreAnswered, judge_read-ready}

Verdict-cases :
    (x : Verdict)
    → (x ≡ ready)
      ⊎ ((x ≡ retry) ⊎ (((d : String) × (x ≡ failed d)) ⊎ ((e : Exception) × (x ≡ breaks e))))
Verdict-cases ready = inl refl
Verdict-cases retry = inr (inl refl)
Verdict-cases (failed d) = inr (inr (inl (d, refl)))
Verdict-cases (breaks e) = inr (inr (inr (e, refl)))

Differs-groups : (w v : ScanWorker) → Differs w v → v.groups ≡ w.groups
Differs-groups w v (inl (s, ss, p)) = ap (λ u. u.groups) p
Differs-groups w v (inr (s, ss, p)) = ap (λ u. u.groups) p

Differs-polls : (w v : ScanWorker) → Differs w v → v.polls ≡ w.polls
Differs-polls w v (inl (s, ss, p)) = ap (λ u. u.polls) p
Differs-polls w v (inr (s, ss, p)) = ap (λ u. u.polls) p

-- Of the polls, the one before those that are left had a reply of each device, and the replies were
-- judged to be ready.
abbrev IsJudged : List String → (List DeviceReply → Verdict) → List Poll → List Poll → Type 0
IsJudged ds judge polls left =
    (before : List Poll) × (poll : Poll) × (rs : List DeviceReply) × (polls ≡ before ++ poll ∷ left)
    × (replies poll ds ≡ some rs)
    × (judge rs ≡ ready)

-- One poll more before it.
later :
    (ds : List String) (judge : List DeviceReply → Verdict) (p : Poll) (polls left : List Poll)
    → IsJudged ds judge polls left
    → IsJudged ds judge (p ∷ polls) left
later ds judge p polls left (before, poll, rs, e, q, j) =
    (p ∷ before, poll, rs, ap (λ x. p ∷ x) e, q, j)

-- One round, given what the later ones yield.
after_check :
    (poll : Poll) (polls : List Poll) (instr : DeviceInstructionMessage) (ds : List String)
    (judge : List DeviceReply → Verdict) (w v : ScanWorker) (r : Result)
    → w.polls ≡ polls
    → Checked w r
    → ((u : ScanWorker)
        → u.polls ≡ polls
        → wait_for polls instr ds judge u ≡ continues v
        → IsJudged ds judge polls v.polls × (v.groups ≡ u.groups))
    → and_then r (λ w'. elim (replies poll ds) [
      | none ↦ wait_for polls instr ds judge w'
      | some rs ↦ elim (judge rs) [
        | ready ↦ continues w'
        | retry ↦ wait_for polls instr ds judge w'
        | failed d ↦ scan_abortion (send (movement_failed d instr) w')
        | breaks e ↦ raises e w'
      ]
    ])
      ≡ continues v
    → IsJudged ds judge (poll ∷ polls) v.polls × (v.groups ≡ w.groups)
after_check poll polls instr ds judge w v (scan_abortion u) a c ih e = cc
after_check poll polls instr ds judge w v (blocks u) a c ih e = cc
after_check poll polls instr ds judge w v (raises x u) a c ih e = cc
after_check poll polls instr ds judge w v (continues u) a c ih e =
    let same = Differs-groups w u c.0 in
    let left : u.polls ≡ polls = Differs-polls w u c.0 ∙ a in
    elim (Option-cases (replies poll ds)) [
      | inl q ↦
          let (j, g) = ih u left (ground arith) in (later ds judge poll polls v.polls j, g ∙ same)
      | inr (rs, q) ↦ elim (Verdict-cases (judge rs)) [
        | inl x ↦
            let same_worker : u ≡ v = ground arith in
            let rest : polls ≡ v.polls = sym left ∙ ap (λ z. z.polls) same_worker in
            (
              ([], poll, rs, ap (λ x. poll ∷ x) rest, q, x),
              ap (λ z. z.groups) (sym same_worker) ∙ same,
            )
        | inr (inl x) ↦
            let (j, g) = ih u left (ground arith) in (later ds judge poll polls v.polls j, g ∙ same)
        | inr (inr (inl (d, x))) ↦ ground arith
        | inr (inr (inr (y, x))) ↦ ground arith
      ]
    ]

wait_for-IsJudged :
    (polls : List Poll) (instr : DeviceInstructionMessage) (ds : List String)
    (judge : List DeviceReply → Verdict) (w v : ScanWorker)
    → w.polls ≡ polls
    → wait_for polls instr ds judge w ≡ continues v
    → IsJudged ds judge polls v.polls × (v.groups ≡ w.groups)
unfolding wait_for
wait_for-IsJudged [] instr ds judge w v a e = cc
wait_for-IsJudged (poll ∷ polls) instr ds judge w v a e =
    after_check poll polls instr ds judge (record w { polls = polls }) v
      (check_for_interruption (record w { polls = polls })) refl
      (check_for_interruption-Checked (record w { polls = polls }))
      (λ u. wait_for-IsJudged polls instr ds judge u v) e

continues_of_and_then :
    (f : ScanWorker → ScanWorker) (r : Result) (v : ScanWorker)
    → and_then r (λ u. continues (f u)) ≡ continues v
    → (u : ScanWorker) × (r ≡ continues u) × (f u ≡ v)
continues_of_and_then f (continues u) v e = (u, refl, ground arith)
continues_of_and_then f (scan_abortion u) v e = cc
continues_of_and_then f (blocks u) v e = cc
continues_of_and_then f (raises x u) v e = cc

-- What stands between the beginning of a wait for a group and its end.
wait_for_group_lem :
    (dm : DeviceManager)
    (judge : InstructionMetadata → List (String × ℕ) → List DeviceReply → Verdict)
    (instr : DeviceInstructionMessage) (w v : ScanWorker) (name : String) (group : Dict String ℕ)
    (ds : List String)
    → wait_group_of instr.parameter.wait_group ≡ some name
    → lookup name w.groups ≡ some group
    → get_devices_from_instruction dm instr w ≡ some ds
    → wait_for_group dm judge instr w ≡ continues v
    → IsJudged (names (among ds group)) (judge instr.metadata (among ds group)) w.polls v.polls
      × (v.groups ≡ insert name (others ds group) w.groups)
unfolding wait_for_group
wait_for_group_lem dm judge instr w v name group ds hn hg hd e =
    let waited : wait_for_group dm judge instr w
        ≡ and_then
            (wait_for w.polls instr (names (among ds group)) (judge instr.metadata (among ds group))
              w)
            (λ u. continues (leave_group name ds group u)) =
      rw (hn, hg, hd, wait_for_group) in
    let (u, r, l) = continues_of_and_then (leave_group name ds group) _ v (sym waited ∙ e) in
    let (j, g) = wait_for-IsJudged w.polls instr (names (among ds group)) _ w u refl r in
    let (before, poll, rs, used, q, x) = j in
    (
      (before, poll, rs, used ∙ ap (λ z. before ++ poll ∷ z.polls) l, q, x),
      ap (λ z. z.groups) (sym l) ∙ ap (insert name (others ds group)) g,
    )

-- A wait for a read that ends without an exception has ended with a poll, the last of those that it
-- has used up, in which every device that is both in the group and in the instruction is idle and has
-- answered the group's instruction for it, in this scan; these devices then leave the group.
pub wait_for_group-AreAnswered :
    (dm : DeviceManager) (instr : DeviceInstructionMessage) (w v : ScanWorker) (name : String)
    (group : Dict String ℕ) (ds : List String)
    → wait_group_of instr.parameter.wait_group ≡ some name
    → lookup name w.groups ≡ some group
    → get_devices_from_instruction dm instr w ≡ some ds
    → wait_for_group dm judge_read instr w ≡ continues v
    → ((before : List Poll) × (poll : Poll) × (w.polls ≡ before ++ poll ∷ v.polls)
        × AreAnswered
            (λ r. r.status == 0)
            (λ r. r.status == 0)
            instr.metadata
            poll
            (among ds group))
      × (v.groups ≡ insert name (others ds group) w.groups)
wait_for_group-AreAnswered dm instr w v name group ds hn hg hd e =
    let ((before, poll, rs, used, q, j), g) =
      wait_for_group_lem dm judge_read instr w v name group ds hn hg hd e in
    let (idle, scan, diids) = judge_read-ready instr.metadata (among ds group) rs j in
    (
      (
        before,
        poll,
        used,
        replies-AreAnswered _ _ instr.metadata poll (among ds group) rs q idle idle scan diids,
      ),
      g,
    )
