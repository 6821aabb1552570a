-- ===== src/EventQueue/Queue.antt =====
-- event_queue.rs: the two cells `TX` and `RX`, and the functions that `install` exports, each run
-- without another thread between its accesses. The lock is never poisoned here.
use kubectl_nvim.Prelude.{
  ℕ, ◌+◌, Bool, true, false, Option, none, some, List, [], ◌∷◌, ◌++◌, Text, if◌then◌else◌, nat_eq,
}

pub record Event : Type 0 where
  pub name : Text
  pub payload : Text

-- Channels are numbered as they are made. A cell holds the number of the channel whose end it has.
-- Only the channel with its receiver in `rx` can hold events: those are `waiting`.
pub record Queue : Type 0 where
  pub tx : Option ℕ
  pub rx : Option ℕ
  pub made : ℕ
  pub waiting : List Event

abbrev pub unset : Queue
unset = record { tx = none; rx = none; made = 0; waiting = [] }

-- `OnceLock::set`, with its result ignored.
abbrev pub set_once : Option ℕ → ℕ → Option ℕ
set_once none c = some c
set_once (some d) c = some d

abbrev pub ensure_from : Option ℕ → Queue → Queue
ensure_from none q = record q {
  tx = set_once q.tx q.made;
  rx = set_once q.rx q.made;
  made = q.made + 1;
}
ensure_from (some c) q = q

unfoldable pub ensure_channel : Queue → Queue
ensure_channel q = ensure_from q.tx q

abbrev pub receives_from : ℕ → Option ℕ → Bool
receives_from c none = false
receives_from c (some d) = nat_eq d c

-- A channel without a receiver loses the event, and the error is ignored.
abbrev pub notify_on : Option ℕ → Event → Queue → Bool × Queue
notify_on none e q = (false, q)
notify_on (some c) e q =
    (true, record q { waiting = if receives_from c q.rx then q.waiting ++ e ∷ [] else q.waiting })

unfoldable pub notify_named : Event → Queue → Bool × Queue
notify_named e q = notify_on q.tx e q

abbrev pub pop_from : Option ℕ → Queue → Option (List Event) × Queue
pop_from none q = (none, q)
pop_from (some c) q = (some q.waiting, record q { waiting = [] })

-- `pop_queue`: `none` is the error that `setup` was not called.
unfoldable pub pop_all : Queue → Option (List Event) × Queue
pop_all q = pop_from q.rx q

unfoldable pub emit : Event → Queue → Bool × Queue
emit e q = notify_named e (ensure_channel q)

pub data Call : Type 0 where
  setup_queue : Call
  pop_queue : Call
  emit_event : Event → Call
  notify : Event → Call

pub data Answer : Type 0 where
  told : Bool → Answer
  popped : List Event → Answer
  not_set_up : Answer

abbrev pub pop_answer : Option (List Event) → Answer
pop_answer none = not_set_up
pop_answer (some es) = popped es

unfoldable pub answer : Call → Queue → Answer × Queue
answer setup_queue q = (told true, ensure_channel q)
answer pop_queue q = let (es, r) = pop_all q in (pop_answer es, r)
answer (emit_event e) q = let (sent, r) = emit e q in (told sent, r)
answer (notify e) q = let (sent, r) = notify_named e q in (told sent, r)

unfoldable pub answers : List Call → Queue → List Answer
answers [] q = []
answers (c ∷ cs) q = let (a, r) = answer c q in a ∷ answers cs r
