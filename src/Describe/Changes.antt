-- ===== src/Describe/Changes.antt =====
-- describe_session.rs: which descriptions the session passes on, and how long it waits.
use mathlib.Core.List.{append-nil, append_assoc}
use kubectl_nvim.Prelude.{
  ℕ, ◌*◌, ◌^◌, suc, ◌≡◌, refl, sym, ap, ◌∙◌, inl, inr, Text, text_eq, text_beq_iff, ◌==◌, Bool,
  Bool-cases, true, List, [], ◌∷◌, ◌++◌, all, &&_iff, arith, if◌then◌else◌, ◌&&◌,
}
use kubectl_nvim.Describe.Poll.{
  min, Described, content, error, Round, Poll, continues, poll_turn, poll_all, initial_poll,
  on_result, opened, new, poll_interval, max_retry_interval,
}

-- A turn in which the session is open and its channel takes messages.
abbrev pub is_steady : Round → Bool
is_steady r = r.active && r.accepted

-- The descriptions that succeeded.
abbrev pub push_content : Described → List Text → List Text
push_content (content text) rest = text ∷ rest
push_content (error e) rest = rest

abbrev pub contents : List Round → List Text
contents [] = []
contents (r ∷ rs) = push_content r.result (contents rs)

-- How many descriptions failed since the last one that succeeded, `n` of them before.
abbrev pub count_failure : Described → ℕ → ℕ
count_failure (content text) n = 0
count_failure (error e) n = suc n

abbrev pub failures : ℕ → List Round → ℕ
failures n [] = n
failures n (r ∷ rs) = failures (count_failure r.result n) rs

pow_suc : (n : ℕ) → 2 ^ suc n ≡ 2 * 2 ^ n
pow_suc n = omega arith

-- The wait after `n` failures in a row.
abbrev pub backoff : ℕ → ℕ
backoff n = min (2 * 2 ^ n) max_retry_interval

backoff_next : (n : ℕ) → min (backoff n * 2) max_retry_interval ≡ backoff (suc n)
backoff_next n = ground (arith, pow_suc n)

-- The content that the next is compared with.
abbrev latest : Described → Text → Text
latest (content text) before = text
latest (error e) before = before

module _ (hash_content : Text → Text) where
  -- The contents whose hash differs from that of the content before them.
  abbrev pub changes : Text → List Text → List Text
  changes before [] = []
  changes before (text ∷ texts) =
      let rest = changes text texts in
      if hash_content text == hash_content before then rest else text ∷ rest

  record Follows (before : Text) (n : ℕ) (p : Poll) : Type 0 where
    hashed : p.last_hash ≡ hash_content before
    waits : p.delay ≡ backoff n

  changes-push :
      (d : Described) (before : Text) (rest : List Text)
      → changes before (push_content d rest)
        ≡ changes before (push_content d []) ++ changes (latest d before) rest
  changes-push (content text) before rest = ground arith
  changes-push (error e) before rest = refl

  -- A description that an open session meets.
  result-Follows :
      (d : Described) (before : Text) (n : ℕ) (p : Poll)
      → Follows before n p
      → (q : Poll) × (on_result hash_content d true p ≡ continues q)
        × Follows (latest d before) (count_failure d n) q
        × (q.sent ≡ p.sent ++ changes before (push_content d []))
  result-Follows (error e) before n p f = (
    record p { delay = min (p.delay * 2) max_retry_interval },
    refl,
    record {
      hashed = f.hashed;
      waits = ap (λ d. min (d * 2) max_retry_interval) f.waits ∙ backoff_next n;
    },
    sym (append-nil p.sent),
  )
  result-Follows (content text) before n p f =
      elim (Bool-cases (hash_content text == hash_content before)) [
        | inl same ↦ (
          record p { delay = poll_interval },
          rw (f.hashed, same) refl,
          record {
            hashed =
                f.hashed ∙ sym ((text_beq_iff (hash_content text) (hash_content before)).0 same);
            waits = refl;
          },
          rw same (sym (append-nil p.sent)),
        )
        | inr other ↦ (
          record {
            last_hash = hash_content text;
            delay = poll_interval;
            sent = p.sent ++ text ∷ [];
          },
          rw (f.hashed, other) refl,
          record { hashed = refl; waits = refl },
          rw other refl,
        )
      ]

  run-Follows :
      (rs : List Round) (before : Text) (n : ℕ) (p : Poll)
      → Follows before n p
      → all is_steady rs ≡ true
      → (q : Poll) × (poll_all hash_content rs p ≡ continues q)
        × (q.sent ≡ p.sent ++ changes before (contents rs))
        × (q.delay ≡ backoff (failures n rs))
  unfolding poll_all poll_turn
  run-Follows [] before n p f h = (p, refl, sym (append-nil p.sent), f.waits)
  run-Follows (r ∷ rs) before n p f h =
      let steady = (&&_iff (is_steady r) (all is_steady rs)).0 h in
      let flags = (&&_iff r.active r.accepted).0 steady.0 in
      let (q, one, next, sent) = result-Follows r.result before n p f in
      let (u, rest, all_sent, waits) =
        run-Follows rs (latest r.result before) (count_failure r.result n) q next steady.1 in
      (
        u,
        simp (flags.0, flags.1, one) rest,
        all_sent
            ∙ ap (λ s. s ++ changes (latest r.result before) (contents rs)) sent
            ∙ append_assoc p.sent (changes before (push_content r.result []))
                (changes (latest r.result before) (contents rs))
            ∙ ap (λ s. p.sent ++ s) (sym (changes-push r.result before (contents rs))),
        waits,
      )

  -- A session that opened with a first description, and whose task runs through some turns in which
  -- it stays open and its channel takes messages: its messages are the first description and then
  -- each later one whose hash differs from that of the description before it. The next wait is 2
  -- seconds, doubled for each failure since the last success, and at most 120.
  pub poll_all-changes :
      (initial : Text) (rs : List Round)
      → all is_steady rs ≡ true
      → (p : Poll) × (q : Poll) × (new hash_content (content initial) true ≡ opened p)
        × (poll_all hash_content rs p ≡ continues q)
        × (q.sent ≡ initial ∷ changes initial (contents rs))
        × (q.delay ≡ backoff (failures 0 rs))
  unfolding new
  poll_all-changes initial rs h =
      let p = initial_poll hash_content initial in
      let (q, run, sent, waits) =
        run-Follows rs initial 0 p (record { hashed = refl; waits = refl }) h in
      (p, q, refl, run, sent, waits)
