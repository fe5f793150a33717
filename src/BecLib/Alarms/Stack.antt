-- ===== src/BecLib/Alarms/Stack.antt =====
-- What the stack of AlarmHandler holds (bec_lib/bec_lib/alarm_handler.py), and what draining it by
-- get_alarm yields.
use bec.Prelude.{
  ℕ, zero, suc, ◌≡◌, refl, ◌∙◌, ap, Option, none, some, Bool, true, false, ◌&&◌, not, List, [], ◌∷◌,
  ◌++◌, ◌==◌, ◌≤◌, ◌<◌, nat_eq, length, keep, contains, take, arith, All, All-take, All-keep,
  length-keep-le, All-mono, length-append, beq_refl,
}
use bec.Prelude.Deque.{append_left, length-append_left_le}
use bec.BecLib.Alarms.{
  Alarms, AlarmBase, AlarmHandler, max_alarms, push_alarm, is_unhandled, get_unhandled_alarms,
  remove, AlarmIterator, fresh, rest, stop_iteration, value_error, yielded, yield_alarm, get_alarm,
}

-- No reference twice.
abbrev pub AreDistinct : List ℕ → Type 0
AreDistinct [] = Unit {0}
AreDistinct (r ∷ rs) = (contains r rs ≡ false) × AreDistinct rs

-- The stack names stored alarms, none twice, which are severe; both stacks keep their bound.
pub record IsWellFormed (h : AlarmHandler) : Type 0 where
  pub stored : All (λ r. r < length h.store) h.alarms_stack
  pub distinct : AreDistinct h.alarms_stack
  pub bounded : length h.alarms_stack ≤ max_alarms
  pub raised_bounded : length h.raised_alarms ≤ max_alarms

contains_above : (n : ℕ) (rs : List ℕ) → All (λ r. r < n) rs → contains n rs ≡ false
contains_above n [] h = refl
contains_above n (r ∷ rs) h = ground (arith, contains_above n rs h.1)

contains-take : (r n : ℕ) (rs : List ℕ) → contains r rs ≡ false → contains r (take n rs) ≡ false
contains-take r zero rs h = refl
contains-take r (suc n) [] h = refl
contains-take r (suc n) (s ∷ rs) h = ground (arith, contains-take r n rs)

take-AreDistinct : (n : ℕ) (rs : List ℕ) → AreDistinct rs → AreDistinct (take n rs)
take-AreDistinct zero rs h = tt
take-AreDistinct (suc n) [] h = tt
take-AreDistinct (suc n) (r ∷ rs) h = (contains-take r n rs h.0, take-AreDistinct n rs h.1)

pub push_alarm-IsWellFormed :
    (a : AlarmBase) (h : AlarmHandler) → IsWellFormed h → IsWellFormed (push_alarm a h)
unfolding push_alarm append_left
push_alarm-IsWellFormed a h w =
    let len : length (h.store ++ a ∷ []) ≡ suc (length h.store) =
      omega (arith, length-append h.store (a ∷ [])) in
    let grown : All (λ r. r < length (h.store ++ a ∷ [])) h.alarms_stack =
      All-mono _ _ (λ r q. omega (arith, len)) h.alarms_stack w.stored in
    record {
      stored = (omega (arith, len), All-take _ 99 h.alarms_stack grown);
      distinct =
          take-AreDistinct max_alarms (length h.store ∷ h.alarms_stack)
            (contains_above (length h.store) h.alarms_stack w.stored, w.distinct);
      bounded = length-append_left_le max_alarms (length h.store) h.alarms_stack;
      raised_bounded = w.raised_bounded;
    }

abbrev pub without : ℕ → List ℕ → List ℕ
without r rs = keep (λ s. not (s == r)) rs

without_absent : (r : ℕ) (rs : List ℕ) → contains r rs ≡ false → without r rs ≡ rs
without_absent r [] h = refl
without_absent r (s ∷ rs) h = ground (arith, without_absent r rs)

-- remove finds a member, and keeps the others in their order.
pub remove-without :
    (r : ℕ) (rs : List ℕ)
    → AreDistinct rs
    → contains r rs ≡ true
    → remove r rs ≡ some (without r rs)
unfolding remove
remove-without r [] d h = cc
remove-without r (s ∷ rs) d h =
    ground (arith, remove-without r rs d.1, without_absent r rs, nat_eq.beq_iff s r)

contains-keep :
    (p : ℕ → Bool) (r : ℕ) (rs : List ℕ) → contains r (keep p rs) ≡ (p r && contains r rs)
contains-keep p r [] = ground arith
contains-keep p r (s ∷ rs) = ground (arith, contains-keep p r rs, nat_eq.beq_iff s r)

pub keep-AreDistinct : (p : ℕ → Bool) (rs : List ℕ) → AreDistinct rs → AreDistinct (keep p rs)
keep-AreDistinct p [] d = tt
keep-AreDistinct p (r ∷ rs) d = ground (arith, keep-AreDistinct p rs d.1, contains-keep p r rs)

keep_agree :
    (p q : ℕ → Bool) (rs : List ℕ)
    → ((r : ℕ) → contains r rs ≡ true → p r ≡ q r)
    → keep p rs ≡ keep q rs
keep_agree p q [] h = refl
keep_agree p q (r ∷ rs) h =
    ground (arith, h r (ground (arith, beq_refl r)), keep_agree p q rs (λ s m. h s (ground arith)))

keep-without :
    (r : ℕ) (rs stack : List ℕ)
    → keep (λ s. not (contains s rs)) (without r stack)
      ≡ keep (λ s. not (contains s (r ∷ rs))) stack
keep-without r rs [] = refl
keep-without r rs (s ∷ stack) =
    ground (arith, keep-without r rs stack, nat_eq.beq_iff s r, nat_eq.beq_iff r s)

-- Runs the generator to its end, in at most this many steps.
abbrev pub drain : ℕ → AlarmIterator → AlarmHandler → Option (List ℕ × AlarmHandler)
drain zero it h = none
drain (suc n) it h = elim (get_alarm it h) [
  | stop_iteration ↦ some ([], h)
  | value_error ↦ none
  | yielded r it' h' ↦ elim (drain n it' h') [ none ↦ none | some (rs, h'') ↦ some (r ∷ rs, h'') ]
]

keep_all : (rs : List ℕ) → keep (λ s. true) rs ≡ rs
keep_all [] = refl
keep_all (r ∷ rs) = ap (λ xs. r ∷ xs) (keep_all rs)

-- Members of the stack other than the removed one stay.
All-without :
    (r : ℕ) (rs stack : List ℕ)
    → contains r rs ≡ false
    → All (λ s. contains s stack ≡ true) rs
    → All (λ s. contains s (without r stack) ≡ true) rs
All-without r [] stack a h = tt
All-without r (s ∷ rs) stack a h = (
  ground (arith, contains-keep (λ t. not (t == r)) s stack, h.0),
  All-without r rs stack (ground arith) h.1,
)

drain-rest :
    (n : ℕ) (rs : List ℕ) (h : AlarmHandler)
    → length rs < n
    → AreDistinct h.alarms_stack
    → AreDistinct rs
    → All (λ r. contains r h.alarms_stack ≡ true) rs
    → drain n (rest rs) h
      ≡ some (rs, record h { alarms_stack = keep (λ s. not (contains s rs)) h.alarms_stack })
unfolding get_alarm yield_alarm
drain-rest zero rs h l d a m = elim l [ ]
drain-rest (suc n) [] h l d a m = rw (keep_all h.alarms_stack)
drain-rest (suc n) (r ∷ rs) h l d a m =
    let h' = record h { alarms_stack = without r h.alarms_stack } in
    let tail =
      drain-rest n rs h' (omega arith) (keep-AreDistinct _ h.alarms_stack d) a.1
        (All-without r rs h.alarms_stack a.0 m.1) in
    ground (arith, remove-without r h.alarms_stack d m.0, tail, keep-without r rs h.alarms_stack)

All_contains : (rs : List ℕ) → All (λ r. contains r rs ≡ true) rs
All_contains [] = tt
All_contains (r ∷ rs) =
    (ground (arith, beq_refl r), All-mono _ _ (λ s h. ground arith) rs (All_contains rs))

-- On a well-formed handler, iterating get_alarm to its end, in at most one step more than there are
-- alarms on the stack, yields every unhandled alarm of the stack that is severe enough, newest first,
-- raises nothing, and leaves exactly the other alarms on the stack.
pub get_alarm-get_unhandled_alarms :
    (n : ℕ) (severity : Alarms) (h : AlarmHandler)
    → IsWellFormed h
    → length h.alarms_stack < n
    → drain n (fresh severity) h
      ≡ some (
        get_unhandled_alarms severity h,
        record h {
          alarms_stack = keep (λ r. not (is_unhandled severity h.store r)) h.alarms_stack;
        },
      )
unfolding get_unhandled_alarms get_alarm
get_alarm-get_unhandled_alarms zero severity h w l = elim l [ ]
get_alarm-get_unhandled_alarms (suc n) severity h w l =
    let p = is_unhandled severity h.store in
    let rs = keep p h.alarms_stack in
    drain-rest (suc n) rs h (omega (arith, length-keep-le p h.alarms_stack)) w.distinct
      (keep-AreDistinct p h.alarms_stack w.distinct)
      (All-keep _ p h.alarms_stack (All_contains h.alarms_stack))
    ∙ rw (
        keep_agree (λ s. not (contains s rs)) (λ s. not (p s)) h.alarms_stack
          (λ s m. ground (arith, contains-keep p s h.alarms_stack)))
