-- ===== src/BecLib/Alarms/Reach.antt =====
-- The stacks of AlarmHandler after any operations (bec_lib/bec_lib/alarm_handler.py).
use bec.Prelude.{
  ℕ, ◌≡◌, refl, inl, inr, subst, none, some, true, false, not, List, [], ◌∷◌, ◌==◌, nat_eq, ltb,
  contains, arith, All-keep, length-keep-le, length-update, Bool-cases, Option-cases, if_ind,
}
use bec.Prelude.Deque.{length-append_le}
use bec.BecLib.Alarms.{
  Alarms, level, minor, alarms_of, AlarmMessage, AlarmHandler, alarm_handler, add_alarm,
  get_unhandled_alarms, remove, AlarmIterator, fresh, rest, yielded, yield_alarm, get_alarm,
  raise_first, raise_alarms, clear, str, max_alarms,
}
use bec.BecLib.Alarms.Stack.{
  IsWellFormed, push_alarm-IsWellFormed, remove-without, without, keep-AreDistinct,
}

-- The operations of the handler; a print of an alarm marks it.
pub data Step : AlarmHandler → AlarmHandler → Type 0 where
  adds : {h h' : AlarmHandler} (msg : AlarmMessage) → add_alarm msg h ≡ some h' → Step h h'
  takes :
      {h h' : AlarmHandler} (it it' : AlarmIterator) (r : ℕ)
      → get_alarm it h ≡ yielded r it' h'
      → Step h h'
  raises : {h : AlarmHandler} (severity : Alarms) → Step h (raise_alarms severity h).1
  clears : {h : AlarmHandler} → Step h (clear h)
  prints : {h : AlarmHandler} (r : ℕ) → Step h (str r h)

pub data Reaches : AlarmHandler → Type 0 where
  starts : Reaches alarm_handler
  goes_on : {h h' : AlarmHandler} → Reaches h → Step h h' → Reaches h'

add_alarm-IsWellFormed :
    (msg : AlarmMessage) (h h' : AlarmHandler)
    → IsWellFormed h
    → add_alarm msg h ≡ some h'
    → IsWellFormed h'
unfolding add_alarm
add_alarm-IsWellFormed msg h h' w e = elim (Option-cases (alarms_of msg.severity)) [
  | inl q ↦ ground arith
  | inr (s, q) ↦ subst IsWellFormed (ground arith) (
      if_ind IsWellFormed (ltb (level minor) (level s))
        (push_alarm-IsWellFormed
          (record { alarm = msg; severity = s; alarm_type = msg.alarm_type; handled = false }) h w)
        w)
]

remove_absent : (r : ℕ) (rs : List ℕ) → contains r rs ≡ false → remove r rs ≡ none
unfolding remove
remove_absent r [] h = refl
remove_absent r (s ∷ rs) h = ground (arith, remove_absent r rs)

without-IsWellFormed :
    (r : ℕ) (h : AlarmHandler)
    → IsWellFormed h
    → IsWellFormed (record h { alarms_stack = without r h.alarms_stack })
without-IsWellFormed r h w = record {
  stored = All-keep _ _ h.alarms_stack w.stored;
  distinct = keep-AreDistinct _ h.alarms_stack w.distinct;
  bounded = omega (arith, length-keep-le (λ s. not (s == r)) h.alarms_stack, w.bounded);
  raised_bounded = w.raised_bounded;
}

yield_alarm-IsWellFormed :
    (rs : List ℕ) (h h' : AlarmHandler) (r : ℕ) (it : AlarmIterator)
    → IsWellFormed h
    → yield_alarm rs h ≡ yielded r it h'
    → IsWellFormed h'
unfolding yield_alarm
yield_alarm-IsWellFormed [] h h' r it w e = cc
yield_alarm-IsWellFormed (s ∷ rs) h h' r it w e = elim (Bool-cases (contains s h.alarms_stack)) [
  | inl q ↦
      subst IsWellFormed (ground (arith, remove-without s h.alarms_stack w.distinct q))
        (without-IsWellFormed s h w)
  | inr q ↦ ground (arith, remove_absent s h.alarms_stack q)
]

raise_first-IsWellFormed :
    (rs : List ℕ) (h : AlarmHandler) → IsWellFormed h → IsWellFormed (raise_first rs h).1
raise_first-IsWellFormed [] h w = w
raise_first-IsWellFormed (r ∷ rs) h w = record {
  stored = w.stored;
  distinct = w.distinct;
  bounded = w.bounded;
  raised_bounded = length-append_le max_alarms h.raised_alarms r;
}

step-IsWellFormed : {h h' : AlarmHandler} → Step h h' → IsWellFormed h → IsWellFormed h'
unfolding get_alarm raise_alarms clear str
step-IsWellFormed {h} {h'} (adds msg e) w = add_alarm-IsWellFormed msg h h' w e
step-IsWellFormed {h} {h'} (takes (fresh s) it' r e) w =
    yield_alarm-IsWellFormed (get_unhandled_alarms s h) h h' r it' w e
step-IsWellFormed {h} {h'} (takes (rest rs) it' r e) w = yield_alarm-IsWellFormed rs h h' r it' w e
step-IsWellFormed {h} (raises s) w = raise_first-IsWellFormed (get_unhandled_alarms s h) h w
step-IsWellFormed clears w = record {
  stored = tt;
  distinct = tt;
  bounded = omega arith;
  raised_bounded = w.raised_bounded;
}
step-IsWellFormed {h} (prints r) w = record {
  stored = rw (length-update r (λ a. record a { handled = true }) h.store) w.stored;
  distinct = w.distinct;
  bounded = w.bounded;
  raised_bounded = w.raised_bounded;
}

-- However alarms are added, taken by get_alarm, raised, printed and cleared, in any order and from
-- any iterators, the stack names only alarms that were added, none of them twice, and neither it nor
-- the list of the raised alarms has more than a hundred.
pub Reaches-IsWellFormed : {h : AlarmHandler} → Reaches h → IsWellFormed h
unfolding alarm_handler
Reaches-IsWellFormed starts = record {
  stored = tt;
  distinct = tt;
  bounded = omega arith;
  raised_bounded = omega arith;
}
Reaches-IsWellFormed (goes_on r s) = step-IsWellFormed s (Reaches-IsWellFormed r)
