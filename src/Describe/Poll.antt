-- ===== src/Describe/Poll.antt =====
-- describe_session.rs: the session and its polling task, in seconds. The description comes from the
-- Go library: what it gives is an argument, as is the hash.
use kubectl_nvim.Prelude.{
  ℕ, ◌*◌, Text, text_eq, ◌==◌, Bool, true, false, List, [], ◌∷◌, ◌++◌, leb, if◌then◌else◌,
}

abbrev pub poll_interval : ℕ
poll_interval = 2

abbrev pub max_retry_interval : ℕ
max_retry_interval = 120

abbrev pub min : ℕ → ℕ → ℕ
min a b = if leb a b then a else b

-- What `call_describe` gives.
pub data Described : Type 0 where
  content : Text → Described
  error : Text → Described

-- What one turn of the loop meets: whether the session is open after the wait, the description,
-- where a task that panicked counts as an error, and whether the channel takes a message.
pub record Round : Type 0 where
  pub active : Bool
  pub result : Described
  pub accepted : Bool

-- The variables of the loop, and the messages that it sent.
pub record Poll : Type 0 where
  pub last_hash : Text
  pub delay : ℕ
  pub sent : List Text

pub data Turn : Type 0 where
  continues : Poll → Turn
  breaks : Poll → Turn

abbrev pub and_then : Turn → (Poll → Turn) → Turn
and_then (continues p) rest = rest p
and_then (breaks p) rest = breaks p

module _ (hash_content : Text → Text) where
  abbrev pub send_changed : Text → Bool → Poll → Turn
  send_changed text true p =
      continues (record p { last_hash = hash_content text; sent = p.sent ++ text ∷ [] })
  send_changed text false p = breaks (record p { last_hash = hash_content text })

  abbrev pub on_content : Text → Bool → Poll → Turn
  on_content text accepted p =
      if hash_content text == p.last_hash then continues p else send_changed text accepted p

  abbrev pub on_result : Described → Bool → Poll → Turn
  on_result (content text) accepted p =
      on_content text accepted (record p { delay = poll_interval })
  on_result (error e) accepted p =
      continues (record p { delay = min (p.delay * 2) max_retry_interval })

  -- One turn of the loop, after the wait.
  unfoldable pub poll_turn : Round → Poll → Turn
  poll_turn r p = if r.active then on_result r.result r.accepted p else breaks p

  unfoldable pub poll_all : List Round → Poll → Turn
  poll_all [] p = continues p
  poll_all (r ∷ rs) p = and_then (poll_turn r p) (poll_all rs)

  abbrev pub initial_poll : Text → Poll
  initial_poll initial = record {
    last_hash = hash_content initial;
    delay = poll_interval;
    sent = initial ∷ [];
  }

  pub data Opened : Type 0 where
    opened : Poll → Opened
    describe_failed : Text → Opened
    no_runtime : Opened

  -- `DescribeSession::new`: the description is first, then the runtime. The first message is sent
  -- before the task starts.
  unfoldable pub new : Described → Bool → Opened
  new (error e) runtime = describe_failed e
  new (content initial) runtime = if runtime then opened (initial_poll initial) else no_runtime
