-- ===== src/EventQueue/Refinement.antt =====
-- event_queue.rs: the cells and channels act as one optional list of events.
use kubectl_nvim.Prelude.{
  ℕ, ◌+◌, ◌≡◌, refl, true, false, Option, none, some, List, [], ◌∷◌, ◌++◌, nat_eq, arith,
}
use kubectl_nvim.EventQueue.Queue.{
  Event, Queue, unset, ensure_channel, notify_named, pop_all, emit, Call, setup_queue, pop_queue,
  emit_event, notify, Answer, told, popped, not_set_up, answer, answers,
}

-- What the callers rely on: no queue before the first call that sets it up, and then the events
-- that were sent and not popped yet, the oldest first.
abbrev pub expect : Call → Option (List Event) → Answer × Option (List Event)
expect setup_queue none = (told true, some [])
expect setup_queue (some es) = (told true, some es)
expect pop_queue none = (not_set_up, none)
expect pop_queue (some es) = (popped es, some [])
expect (emit_event e) none = (told true, some (e ∷ []))
expect (emit_event e) (some es) = (told true, some (es ++ e ∷ []))
expect (notify e) none = (told false, none)
expect (notify e) (some es) = (told true, some (es ++ e ∷ []))

abbrev pub expected : List Call → Option (List Event) → List Answer
expected [] v = []
expected (c ∷ cs) v = let (a, w) = expect c v in a ∷ expected cs w

-- The queues that a view stands for.
data Seen : Option (List Event) → Queue → Type 0 where
  before : (n : ℕ) → Seen none (record { tx = none; rx = none; made = n; waiting = [] })
  running :
      (c n : ℕ) (es : List Event)
      → Seen (some es) (record { tx = some c; rx = some c; made = n; waiting = es })

nat_eq_refl : (n : ℕ) → nat_eq n n ≡ true
nat_eq_refl n = ground arith

answer-Seen :
    (c : Call) (v : Option (List Event)) (q : Queue)
    → Seen v q
    → ((answer c q).0 ≡ (expect c v).0) × Seen (expect c v).1 (answer c q).1
unfolding answer pop_all emit notify_named ensure_channel
answer-Seen setup_queue v q (before n) = (refl, running n (n + 1) [])
answer-Seen setup_queue v q (running c n es) = (refl, running c n es)
answer-Seen pop_queue v q (before n) = (refl, before n)
answer-Seen pop_queue v q (running c n es) = (refl, running c n [])
answer-Seen (emit_event e) v q (before n) = rw (nat_eq_refl n) (refl, running n (n + 1) (e ∷ []))
answer-Seen (emit_event e) v q (running c n es) =
    rw (nat_eq_refl c) (refl, running c n (es ++ e ∷ []))
answer-Seen (notify e) v q (before n) = (refl, before n)
answer-Seen (notify e) v q (running c n es) = rw (nat_eq_refl c) (refl, running c n (es ++ e ∷ []))

answers-Seen :
    (cs : List Call) (v : Option (List Event)) (q : Queue) → Seen v q → answers cs q ≡ expected cs v
unfolding answers
answers-Seen [] v q s = refl
answers-Seen (c ∷ cs) v q s =
    let (same, next) = answer-Seen c v q s in
    rw (same, answers-Seen cs (expect c v).1 (answer c q).1 next) refl

-- Whatever is called, in whatever order, one call after the other, the answers are those of one
-- list of events: `pop_queue` fails just before the first call that sets the queue up, and then
-- gives each event that was sent once, the oldest first.
pub answers_refine : (cs : List Call) → answers cs unset ≡ expected cs none
answers_refine cs = answers-Seen cs none unset (before 0)
