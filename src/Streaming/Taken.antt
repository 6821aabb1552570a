-- ===== src/Streaming/Taken.antt =====
-- streaming.rs: what `take_input_receiver` gives when it is called again.
use kubectl_nvim.Prelude.{
  ℕ, suc, ◌≡◌, refl, ap, ◌∙◌, inl, inr, Bool-cases, any, Option, none, some, List, [], ◌∷◌, nat_eq,
  arith,
}
use kubectl_nvim.Streaming.Channel.{Channel, uncons, seen}
use kubectl_nvim.Streaming.Bidirectional.{
  BidirectionalSession, new_bidirectional, take_input_receiver, has_receiver, send_input,
  try_recv_output, close_session, read_from, read, discard, InputCall, take_receiver, send_message,
  read_receiver, discard_receiver, read_output, shut, call, call_all,
}
use kubectl_nvim.Streaming.Delivery.{IsRouted, call_lem, calls_lem, new-IsRouted}

module _ {TIn TOut : Type 0} (In : Channel TIn) (Out : Channel TOut) where
  -- The place of the first receiver is taken by one of another channel.
  abbrev IsReplaced : BidirectionalSession In Out → Type 0
  IsReplaced s = (n : ℕ) × (s.input_receiver ≡ suc n)

  send_keeps :
      (m : TIn) (s : BidirectionalSession In Out)
      → (send_input In Out m s).1.input_receiver ≡ s.input_receiver
  unfolding send_input
  send_keeps m s = elim (Bool-cases (has_receiver In Out s)) [
    | inl there ↦ rw there refl
    | inr gone ↦ rw gone refl
  ]

  read_from_keeps :
      (r : ℕ) (o : Option (TIn × In.Chan)) (s : BidirectionalSession In Out)
      → (read_from In Out r o s).1.input_receiver ≡ s.input_receiver
  read_from_keeps r none s = refl
  read_from_keeps r (some (m, c)) s = refl

  read_keeps :
      (r : ℕ) (s : BidirectionalSession In Out)
      → (read In Out r s).1.input_receiver ≡ s.input_receiver
  unfolding read
  read_keeps r s = elim (Bool-cases (any (nat_eq r) s.held)) [
    | inl there ↦ rw there (read_from_keeps r (In.try_recv (s.channels r)) s)
    | inr gone ↦ rw gone refl
  ]

  discard_keeps :
      (r : ℕ) (s : BidirectionalSession In Out)
      → (discard In Out r s).input_receiver ≡ s.input_receiver
  unfolding discard
  discard_keeps r s = elim (Bool-cases (any (nat_eq r) s.held)) [
    | inl there ↦ rw there refl
    | inr gone ↦ rw gone refl
  ]

  call-IsReplaced :
      (c : InputCall In Out) (s : BidirectionalSession In Out)
      → IsRouted In Out s
      → IsReplaced s
      → IsReplaced (call In Out c s)
  unfolding call take_input_receiver try_recv_output close_session
  call-IsReplaced take_receiver s v told = v.numbered
  call-IsReplaced (send_message m) s v (n, told) = (n, send_keeps m s ∙ told)
  call-IsReplaced (read_receiver r) s v (n, told) = (n, read_keeps r s ∙ told)
  call-IsReplaced (discard_receiver r) s v (n, told) = (n, discard_keeps r s ∙ told)
  call-IsReplaced read_output s v told = told
  call-IsReplaced shut s v told = told

  taken-IsReplaced :
      (s : BidirectionalSession In Out)
      → IsRouted In Out s
      → IsReplaced (call In Out take_receiver s)
  unfolding call take_input_receiver
  taken-IsReplaced s v = v.numbered

  calls-IsReplaced :
      (cs : List (InputCall In Out)) (s : BidirectionalSession In Out)
      → IsRouted In Out s
      → IsReplaced s
      → IsReplaced (call_all In Out cs s)
  unfolding call_all
  calls-IsReplaced [] s v told = told
  calls-IsReplaced (c ∷ cs) s v told =
      calls-IsReplaced cs (call In Out c s) (call_lem In Out c s v).1 (call-IsReplaced c s v told)

  nothing_read :
      (r : ℕ) (o : Option (TIn × In.Chan)) (s : BidirectionalSession In Out)
      → seen In.waiting o ≡ none
      → (read_from In Out r o s).0 ≡ none
  nothing_read r none s h = refl
  nothing_read r (some (m, c)) s h = absurd (ground arith)

  read_idle :
      (n : ℕ) (s : BidirectionalSession In Out)
      → IsRouted In Out s
      → (read In Out (suc n) s).0 ≡ none
  unfolding read
  read_idle n s v = elim (Bool-cases (any (nat_eq (suc n)) s.held)) [
    | inl there ↦
        let c = s.channels (suc n) in
        rw there
          (nothing_read (suc n) (In.try_recv c) s (In.try_recv_waiting c ∙ ap uncons (v.idle n)))
    | inr gone ↦ rw gone refl
  ]

  -- The session after some calls, a first receiver, and more calls.
  abbrev pub once_taken :
      List (InputCall In Out) → List (InputCall In Out) → BidirectionalSession In Out
  once_taken before between =
      call_all In Out between
        (call In Out take_receiver (call_all In Out before (new_bidirectional In Out)))

  -- The receiver of the input can be taken again, but the later one is another: after any calls,
  -- there is nothing to read from it.
  pub later_receiver_idle :
      (before between later : List (InputCall In Out))
      → (r : ℕ) × ((take_input_receiver In Out (once_taken before between)).0 ≡ some r)
        × ((read In Out r
              (call_all In Out later (call In Out take_receiver (once_taken before between)))).0
            ≡ none)
  unfolding take_input_receiver
  later_receiver_idle before between later =
      let first = call_all In Out before (new_bidirectional In Out) in
      let routed = (calls_lem In Out before (new_bidirectional In Out) (new-IsRouted In Out)).1 in
      let taken = call In Out take_receiver first in
      let routed' = (call_lem In Out take_receiver first routed).1 in
      let s = once_taken before between in
      let (n, at) = calls-IsReplaced between taken routed' (taken-IsReplaced first routed) in
      let v = (call_lem In Out take_receiver s (calls_lem In Out between taken routed').1).1 in
      let end = call_all In Out later (call In Out take_receiver s) in
      (
        suc n,
        ap some at,
        read_idle n end (calls_lem In Out later (call In Out take_receiver s) v).1,
      )
