-- ===== src/Streaming/Receive.antt =====
-- streaming.rs: what `try_recv` and `try_recv_batch` take from the channel.
use kubectl_nvim.Prelude.{
  ℕ, zero, suc, ◌≡◌, refl, sym, ap, Option, none, some, List, [], ◌∷◌, arith,
}
use kubectl_nvim.Streaming.Channel.{Channel, uncons, seen}
use kubectl_nvim.Streaming.Session.{Session, received, try_recv, push_batch, try_recv_batch}

module _ {A : Type 0} where
  abbrev pub take : ℕ → List A → List A
  take zero xs = []
  take (suc n) [] = []
  take (suc n) (x ∷ xs) = x ∷ take n xs

  abbrev pub drop : ℕ → List A → List A
  drop zero xs = xs
  drop (suc n) [] = []
  drop (suc n) (x ∷ xs) = drop n xs

  empty_of_none : (xs : List A) → none ≡ uncons xs → [] ≡ xs
  empty_of_none [] h = refl
  empty_of_none (x ∷ xs) h = ground arith

  pub first_of_some :
      (xs : List A) {x : A} {rest : List A} → some (x, rest) ≡ uncons xs → x ∷ rest ≡ xs
  first_of_some [] h = ground arith
  first_of_some (y ∷ xs) h = cc h

module _ {T : Type 0} (C : Channel T) where
  -- A batch and the session after it, against the messages that waited before.
  abbrev Taken : ℕ → List T → List T × Session C → Type 0
  Taken limit before (ms, t) = (ms ≡ take limit before) × (C.waiting t.receiver ≡ drop limit before)

  push_batch-Taken :
      (limit : ℕ) (s : Session C) (o : Option (T × C.Chan))
      → seen C.waiting o ≡ uncons (C.waiting s.receiver)
      → ((t : Session C) → Taken limit (C.waiting t.receiver) (try_recv_batch C limit t))
      → Taken
          (suc limit)
          (C.waiting s.receiver)
          (push_batch C (received C s o).0 (try_recv_batch C limit (received C s o).1) s)
  push_batch-Taken limit s none h more =
      let empty = empty_of_none (C.waiting s.receiver) h in rw (sym empty) (refl, refl)
  push_batch-Taken limit s (some (m, c)) h more =
      let (ms, rest) = more (record s { receiver = c }) in
      rw (sym (first_of_some (C.waiting s.receiver) h)) (ap (λ xs. m ∷ xs) ms, rest)

  -- A batch is the oldest messages that wait, in the order in which they were sent, up to the limit,
  -- and no others leave the channel.
  pub try_recv_batch-take :
      (limit : ℕ) (s : Session C)
      → ((try_recv_batch C limit s).0 ≡ take limit (C.waiting s.receiver))
        × (C.waiting (try_recv_batch C limit s).1.receiver ≡ drop limit (C.waiting s.receiver))
  unfolding try_recv_batch try_recv
  try_recv_batch-take zero s = (refl, refl)
  try_recv_batch-take (suc limit) s =
      push_batch-Taken limit s (C.try_recv s.receiver) (C.try_recv_waiting s.receiver)
        (λ t. try_recv_batch-take limit t)
