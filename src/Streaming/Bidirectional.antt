-- ===== src/Streaming/Bidirectional.antt =====
-- streaming.rs: `BidirectionalSession`, with what the holders of its receivers do.
use kubectl_nvim.Prelude.{
  ℕ, ◌+◌, Bool, not, ◌||◌, Option, none, some, List, [], ◌∷◌, ◌++◌, any, keep, if◌then◌else◌,
  nat_eq,
}
use kubectl_nvim.Streaming.Channel.{Channel}
use kubectl_nvim.Streaming.Session.{Session}
use kubectl_nvim.Streaming.Session

module _ {TIn TOut : Type 0} (In : Channel TIn) (Out : Channel TOut) where
  -- The channels of input messages have numbers. Beside the fields: the channels themselves, the
  -- next number, and the receivers that were taken and not dropped.
  pub record BidirectionalSession : Type 0 where
    pub input : ℕ
    pub input_receiver : ℕ
    pub output : Session Out
    pub channels : ℕ → In.Chan
    pub fresh : ℕ
    pub held : List ℕ

  abbrev pub new_bidirectional : BidirectionalSession
  new_bidirectional = record {
    input = 0;
    input_receiver = 0;
    output = Session.new Out;
    channels = λ i. In.unbounded;
    fresh = 1;
    held = [];
  }

  abbrev pub with_channel : ℕ → In.Chan → BidirectionalSession → BidirectionalSession
  with_channel i c s = record s { channels = λ j. if nat_eq j i then c else s.channels j }

  -- The receiver that takes the place has no sender, as `.1` drops it.
  unfoldable pub take_input_receiver : BidirectionalSession → Option ℕ × BidirectionalSession
  take_input_receiver s = (
    some s.input_receiver,
    record (with_channel s.fresh In.unbounded s) {
      input_receiver = s.fresh;
      fresh = s.fresh + 1;
      held = s.input_receiver ∷ s.held;
    },
  )

  -- Whether the receiver of the input still exists: tokio refuses what is sent without one.
  abbrev pub has_receiver : BidirectionalSession → Bool
  has_receiver s = nat_eq s.input_receiver s.input || any (nat_eq s.input) s.held

  -- A message that cannot be sent comes back in the `SendError`.
  unfoldable pub send_input : TIn → BidirectionalSession → Option TIn × BidirectionalSession
  send_input m s =
      if has_receiver s
      then (none, with_channel s.input (In.send (s.channels s.input) m) s)
      else (some m, s)

  unfoldable pub try_recv_output : BidirectionalSession → Option TOut × BidirectionalSession
  try_recv_output s = let (m, t) = Session.try_recv Out s.output in (m, record s { output = t })

  abbrev pub is_session_open : BidirectionalSession → Bool
  is_session_open s = Session.is_open Out s.output

  unfoldable pub close_session : BidirectionalSession → BidirectionalSession
  close_session s = record s { output = Session.close Out s.output }

  abbrev pub read_from :
      ℕ → Option (TIn × In.Chan) → BidirectionalSession → Option TIn × BidirectionalSession
  read_from r none s = (none, s)
  read_from r (some (m, c)) s = (some m, with_channel r c s)

  -- What the holder of a receiver gets from it without waiting.
  unfoldable pub read : ℕ → BidirectionalSession → Option TIn × BidirectionalSession
  read r s = if any (nat_eq r) s.held then read_from r (In.try_recv (s.channels r)) s else (none, s)

  -- A holder drops its receiver: tokio drains the channel, and the messages that waited are lost.
  unfoldable pub discard : ℕ → BidirectionalSession → BidirectionalSession
  discard r s =
      if any (nat_eq r) s.held
      then record (with_channel r In.unbounded s) { held = keep (λ j. not (nat_eq r j)) s.held }
      else s

  pub data InputCall : Type 0 where
    take_receiver : InputCall
    send_message : TIn → InputCall
    read_receiver : ℕ → InputCall
    discard_receiver : ℕ → InputCall
    read_output : InputCall
    shut : InputCall

  unfoldable pub call : InputCall → BidirectionalSession → BidirectionalSession
  call take_receiver s = (take_input_receiver s).1
  call (send_message m) s = (send_input m s).1
  call (read_receiver r) s = (read r s).1
  call (discard_receiver r) s = discard r s
  call read_output s = (try_recv_output s).1
  call shut s = close_session s

  abbrev pub accepted_of : TIn → Option TIn → List TIn
  accepted_of m none = m ∷ []
  accepted_of m (some back) = []

  abbrev pub message_of : Option TIn → List TIn
  message_of none = []
  message_of (some m) = m ∷ []

  -- The message that a call sends without an error.
  unfoldable pub accepted : InputCall → BidirectionalSession → List TIn
  accepted (send_message m) s = accepted_of m (send_input m s).0
  accepted _ s = []

  -- The message that a call takes from a receiver.
  unfoldable pub delivered : InputCall → BidirectionalSession → List TIn
  delivered (read_receiver r) s = message_of (read r s).0
  delivered _ s = []

  -- The messages that a call loses, as their receiver is dropped.
  unfoldable pub lost : InputCall → BidirectionalSession → List TIn
  lost (discard_receiver r) s = if any (nat_eq r) s.held then In.waiting (s.channels r) else []
  lost _ s = []

  unfoldable pub call_all : List InputCall → BidirectionalSession → BidirectionalSession
  call_all [] s = s
  call_all (c ∷ cs) s = call_all cs (call c s)

  unfoldable pub all_accepted : List InputCall → BidirectionalSession → List TIn
  all_accepted [] s = []
  all_accepted (c ∷ cs) s = accepted c s ++ all_accepted cs (call c s)

  -- What is read, or lost, call by call.
  unfoldable pub all_removed : List InputCall → BidirectionalSession → List TIn
  all_removed [] s = []
  all_removed (c ∷ cs) s = (delivered c s ++ lost c s) ++ all_removed cs (call c s)
