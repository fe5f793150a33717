-- ===== src/BecLib/Alarms.antt =====
-- AlarmHandler (bec_lib/bec_lib/alarm_handler.py). The alarms are objects in a store, since a
-- printed alarm is marked as handled wherever it is held; the stacks hold references to them.
pub mod Stack
pub mod Reach
use bec.Prelude.{
  ℕ, zero, suc, String, Option, none, some, Bool, true, false, ◌&&◌, not, List, [], ◌∷◌, ◌++◌, ◌==◌,
  nat_eq, if◌then◌else◌, ltb, leb, length, get_elem?, keep, update, contains,
}
use bec.Prelude.Deque

pub data Alarms : Type 0 where
  warning minor major : Alarms

abbrev pub level : Alarms → ℕ
level warning = 0
level minor = 1
level major = 2

-- Alarms(n), none is its ValueError.
abbrev pub alarms_of : ℕ → Option Alarms
alarms_of zero = some warning
alarms_of (suc zero) = some minor
alarms_of (suc (suc zero)) = some major
alarms_of _ = none

pub record AlarmMessage : Type 0 where
  pub severity : ℕ
  pub alarm_type : String
  pub source : String
  pub content : String

pub record AlarmBase : Type 0 where
  pub alarm : AlarmMessage
  pub severity : Alarms
  pub alarm_type : String
  pub handled : Bool

pub record AlarmHandler : Type 0 where
  pub store : List AlarmBase
  pub alarms_stack : List ℕ
  pub raised_alarms : List ℕ

abbrev pub max_alarms : ℕ
max_alarms = 100

unfoldable pub alarm_handler : AlarmHandler
alarm_handler = record { store = []; alarms_stack = []; raised_alarms = [] }

unfoldable pub push_alarm : AlarmBase → AlarmHandler → AlarmHandler
push_alarm a h = record h {
  store = h.store ++ a ∷ [];
  alarms_stack = Deque.append_left max_alarms (length h.store) h.alarms_stack;
}

unfoldable pub add_alarm : AlarmMessage → AlarmHandler → Option AlarmHandler
unfolding push_alarm
add_alarm msg h = elim (alarms_of msg.severity) [
  | none ↦ none
  | some severity ↦ some (
      if ltb (level minor) (level severity)
      then push_alarm
          (record {
            alarm = msg;
            severity = severity;
            alarm_type = msg.alarm_type;
            handled = false;
          })
          h
      else h)
]

-- Is the alarm unhandled and at least this severe?
unfoldable pub is_unhandled : Alarms → List AlarmBase → ℕ → Bool
is_unhandled severity store r = elim (get_elem? store r) [
  | none ↦ false
  | some a ↦ not a.handled && leb (level severity) (level a.severity)
]

unfoldable pub get_unhandled_alarms : Alarms → AlarmHandler → List ℕ
unfolding is_unhandled
get_unhandled_alarms severity h = keep (is_unhandled severity h.store) h.alarms_stack

-- deque.remove: the first that is equal; none is its ValueError.
unfoldable pub remove : ℕ → List ℕ → Option (List ℕ)
remove r [] = none
remove r (s ∷ ss) =
    if s == r then some ss else elim (remove r ss) [ none ↦ none | some ts ↦ some (s ∷ ts) ]

-- The generator of get_alarm: not started, or with the alarms that it has still to yield.
pub data AlarmIterator : Type 0 where
  fresh : Alarms → AlarmIterator
  rest : List ℕ → AlarmIterator

pub data Yielded : Type 0 where
  stop_iteration value_error : Yielded
  yielded : ℕ → AlarmIterator → AlarmHandler → Yielded

unfoldable pub yield_alarm : List ℕ → AlarmHandler → Yielded
unfolding remove
yield_alarm [] h = stop_iteration
yield_alarm (r ∷ rs) h = elim (remove r h.alarms_stack) [
  | none ↦ value_error
  | some stack ↦ yielded r (rest rs) (record h { alarms_stack = stack })
]

-- One step of the generator.
unfoldable pub get_alarm : AlarmIterator → AlarmHandler → Yielded
unfolding yield_alarm get_unhandled_alarms
get_alarm (fresh severity) h = yield_alarm (get_unhandled_alarms severity h) h
get_alarm (rest rs) h = yield_alarm rs h

abbrev pub raise_first : List ℕ → AlarmHandler → Option ℕ × AlarmHandler
raise_first [] h = (none, h)
raise_first (r ∷ rs) h =
    (some r, record h { raised_alarms = Deque.append max_alarms h.raised_alarms r })

-- The alarm that is raised, if any, and the handler after it.
unfoldable pub raise_alarms : Alarms → AlarmHandler → Option ℕ × AlarmHandler
unfolding get_unhandled_alarms
raise_alarms severity h = raise_first (get_unhandled_alarms severity h) h

unfoldable pub clear : AlarmHandler → AlarmHandler
clear h = record h { alarms_stack = [] }

-- `str(alarm)` marks it as handled.
unfoldable pub str : ℕ → AlarmHandler → AlarmHandler
str r h = record h { store = update r (λ a. record a { handled = true }) h.store }
