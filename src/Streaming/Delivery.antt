-- ===== src/Streaming/Delivery.antt =====
-- streaming.rs: where the input of a `BidirectionalSession` arrives.
use mathlib.Core.List.{append_assoc, append-nil}
use kubectl_nvim.Prelude.{
  ℕ, zero, suc, ◌≡◌, refl, sym, ap, ◌∙◌, inl, inr, Bool, false, Bool-cases, any, keep, not, Option,
  none, some, List, [], ◌∷◌, ◌++◌, if◌then◌else◌, nat_eq, nat_eq_iff, arith,
}
use kubectl_nvim.Streaming.Channel.{Channel, uncons, seen}
use kubectl_nvim.Streaming.Receive.{first_of_some}
use kubectl_nvim.Streaming.Bidirectional.{
  BidirectionalSession, new_bidirectional, with_channel, take_input_receiver, has_receiver,
  send_input, try_recv_output, close_session, read_from, read, discard, InputCall, take_receiver,
  send_message, read_receiver, discard_receiver, read_output, shut, call, accepted_of, message_of,
  accepted, delivered, call_all, all_accepted, all_removed, lost,
}

module _ {TIn TOut : Type 0} (In : Channel TIn) (Out : Channel TOut) where
  abbrev waiting_in : BidirectionalSession In Out → ℕ → List TIn
  waiting_in s r = In.waiting (s.channels r)

  -- The input goes to the channel 0, and nothing waits in another one.
  pub record IsRouted (s : BidirectionalSession In Out) : Type 0 where
    pub at_zero : s.input ≡ 0
    pub numbered : (n : ℕ) × (s.fresh ≡ suc n)
    pub idle : (r : ℕ) → waiting_in s (suc r) ≡ []

  -- What one call takes from the channel of the input and adds to it.
  abbrev Delivers :
      List TIn → List TIn → BidirectionalSession In Out → BidirectionalSession In Out → Type 0
  Delivers out more s t = (out ++ waiting_in t 0 ≡ waiting_in s 0 ++ more) × IsRouted t

  unchanged : (s : BidirectionalSession In Out) → IsRouted s → Delivers [] [] s s
  unchanged s v = (sym (append-nil (waiting_in s 0)), v)

  -- What `with_channel` replaces, and what it leaves.
  with_channel-lookup :
      (i j : ℕ) (c : In.Chan) (s : BidirectionalSession In Out) {b : Bool}
      → nat_eq j i ≡ b
      → (with_channel In Out i c s).channels j ≡ (if b then c else s.channels j)
  with_channel-lookup i j c s h = ap (λ t. if t then c else s.channels j) h

  -- A channel that takes the place of another, and is empty unless it is the input's.
  replaced :
      (i : ℕ) (c : In.Chan) (s : BidirectionalSession In Out)
      → IsRouted s
      → ((n : ℕ) → i ≡ suc n → In.waiting c ≡ [])
      → IsRouted (with_channel In Out i c s)
  replaced i c s v empty = record {
    at_zero = v.at_zero;
    numbered = v.numbered;
    idle = λ r. elim (Bool-cases (nat_eq (suc r) i)) [
      | inl same ↦
          ap In.waiting (with_channel-lookup i (suc r) c s same)
          ∙ empty r (sym ((nat_eq_iff (suc r) i).0 same))
      | inr off ↦ ap In.waiting (with_channel-lookup i (suc r) c s off) ∙ v.idle r
    ];
  }

  read_from_lem :
      (r : ℕ) (s : BidirectionalSession In Out)
      → IsRouted s
      → (o : Option (TIn × In.Chan)) → seen In.waiting o ≡ uncons (waiting_in s r)
      → Delivers (message_of In Out (read_from In Out r o s).0) [] s (read_from In Out r o s).1
  read_from_lem r s v none h = unchanged s v
  read_from_lem zero s v (some (m, c)) h = (
    first_of_some (waiting_in s 0) h ∙ sym (append-nil (waiting_in s 0)),
    replaced 0 c s v (λ n e. absurd (ground arith)),
  )
  read_from_lem (suc r) s v (some (m, c)) h = absurd (cc (h, ap uncons (v.idle r)))

  send_lem :
      (m : TIn) (s : BidirectionalSession In Out)
      → IsRouted s
      → Delivers [] (accepted_of In Out m (send_input In Out m s).0) s (send_input In Out m s).1
  unfolding send_input
  send_lem m s v = elim (Bool-cases (has_receiver In Out s)) [
    | inl there ↦ rw there (
      rw v.at_zero (In.send_waiting (s.channels 0) m),
      replaced s.input (In.send (s.channels s.input) m) s v (λ n e. absurd (cc (e, v.at_zero))),
    )
    | inr gone ↦ rw gone (unchanged s v)
  ]

  take_lem :
      (s : BidirectionalSession In Out)
      → IsRouted s
      → Delivers [] [] s (take_input_receiver In Out s).1
  unfolding take_input_receiver
  take_lem s v =
      let (n, e) = v.numbered in
      let other : nat_eq 0 s.fresh ≡ false = ground arith in
      let fresh = replaced s.fresh In.unbounded s v (λ n e. In.unbounded_waiting) in
      (
        ap In.waiting (with_channel-lookup s.fresh 0 In.unbounded s other)
            ∙ sym (append-nil (waiting_in s 0)),
        record { at_zero = v.at_zero; numbered = (suc n, omega arith); idle = fresh.idle },
      )

  read_lem :
      (r : ℕ) (s : BidirectionalSession In Out)
      → IsRouted s
      → Delivers (message_of In Out (read In Out r s).0) [] s (read In Out r s).1
  unfolding read
  read_lem r s v = elim (Bool-cases (any (nat_eq r) s.held)) [
    | inl there ↦
        rw there
          (read_from_lem r s v (In.try_recv (s.channels r)) (In.try_recv_waiting (s.channels r)))
    | inr gone ↦ rw gone (unchanged s v)
  ]

  idle_at :
      (r : ℕ) (s : BidirectionalSession In Out)
      → IsRouted s
      → nat_eq 0 r ≡ false
      → waiting_in s r ≡ []
  idle_at zero s v h = absurd (ground arith)
  idle_at (suc r) s v h = v.idle r

  removed_at :
      (r : ℕ) (s : BidirectionalSession In Out) (left : List ℕ)
      → IsRouted s
      → Delivers
          (waiting_in s r)
          []
          s
          (record (with_channel In Out r In.unbounded s) { held = left })
  removed_at r s left v =
      let new = replaced r In.unbounded s v (λ n e. In.unbounded_waiting) in
      (
        elim (Bool-cases (nat_eq 0 r)) [
          | inl same ↦
              let zero_r : 0 ≡ r = (nat_eq_iff 0 r).0 same in
              ap (λ xs. waiting_in s r ++ xs)
                (ap In.waiting (with_channel-lookup r 0 In.unbounded s same) ∙ In.unbounded_waiting)
              ∙ ap (λ j. waiting_in s j ++ []) (sym zero_r)
          | inr other ↦
              ap (λ xs. xs ++ waiting_in (with_channel In Out r In.unbounded s) 0)
                (idle_at r s v other)
              ∙ ap In.waiting (with_channel-lookup r 0 In.unbounded s other)
              ∙ sym (append-nil (waiting_in s 0))
        ],
        record { at_zero = new.at_zero; numbered = new.numbered; idle = new.idle },
      )

  discard_lem :
      (r : ℕ) (s : BidirectionalSession In Out)
      → IsRouted s
      → Delivers (lost In Out (discard_receiver r) s) [] s (discard In Out r s)
  unfolding discard lost
  discard_lem r s v = elim (Bool-cases (any (nat_eq r) s.held)) [
    | inl there ↦ rw there (removed_at r s (keep (λ j. not (nat_eq r j)) s.held) v)
    | inr gone ↦ rw gone (unchanged s v)
  ]

  -- The turn of any call.
  pub call_lem :
      (c : InputCall In Out) (s : BidirectionalSession In Out)
      → IsRouted s
      → Delivers (delivered In Out c s ++ lost In Out c s) (accepted In Out c s) s (call In Out c s)
  unfolding call delivered accepted try_recv_output close_session lost
  call_lem take_receiver s v = take_lem s v
  call_lem (send_message m) s v = send_lem m s v
  call_lem (read_receiver r) s v =
      let (e, w) = read_lem r s v in
      (
        ap (λ xs. xs ++ waiting_in (read In Out r s).1 0)
              (append-nil (message_of In Out (read In Out r s).0))
            ∙ e,
        w,
      )
  call_lem (discard_receiver r) s v = discard_lem r s v
  call_lem read_output s v = (
    sym (append-nil (waiting_in s 0)),
    record { at_zero = v.at_zero; numbered = v.numbered; idle = v.idle },
  )
  call_lem shut s v = (
    sym (append-nil (waiting_in s 0)),
    record { at_zero = v.at_zero; numbered = v.numbered; idle = v.idle },
  )

  pub calls_lem :
      (cs : List (InputCall In Out)) (s : BidirectionalSession In Out)
      → IsRouted s
      → Delivers (all_removed In Out cs s) (all_accepted In Out cs s) s (call_all In Out cs s)
  unfolding call_all all_removed all_accepted
  calls_lem [] s v = unchanged s v
  calls_lem (c ∷ cs) s v =
      let t = call In Out c s in
      let (one, w) = call_lem c s v in
      let (rest, last) = calls_lem cs t w in
      let out = delivered In Out c s ++ lost In Out c s in
      let more = accepted In Out c s in
      let outs = all_removed In Out cs t in
      let mores = all_accepted In Out cs t in
      (
        append_assoc out outs (waiting_in (call_all In Out cs t) 0)
            ∙ ap (λ xs. out ++ xs) rest
            ∙ sym (append_assoc out (waiting_in t 0) mores)
            ∙ ap (λ xs. xs ++ mores) one
            ∙ append_assoc (waiting_in s 0) more mores,
        last,
      )

  pub new-IsRouted : IsRouted (new_bidirectional In Out)
  new-IsRouted = record { at_zero = refl; numbered = (0, refl); idle = λ r. In.unbounded_waiting }

  -- After any calls on a new session: what was read from its receivers, or was waiting for one when
  -- it was dropped, in the order of the calls, and then what waits in the channel of the input, are
  -- the messages that were sent without an error, in the order of sending.
  pub input_delivered :
      (cs : List (InputCall In Out))
      → all_removed In Out cs (new_bidirectional In Out)
          ++ In.waiting ((call_all In Out cs (new_bidirectional In Out)).channels 0)
        ≡ all_accepted In Out cs (new_bidirectional In Out)
  input_delivered cs =
      (calls_lem cs (new_bidirectional In Out) new-IsRouted).0
      ∙ ap (λ xs. xs ++ all_accepted In Out cs (new_bidirectional In Out)) In.unbounded_waiting
