-- ===== src/Streaming/Tasks.antt =====
-- streaming.rs: the task count and the end of a session, whatever the interleaving.
use kubectl_nvim.Prelude.{
  ℕ, zero, suc, ◌+◌, ◌%◌, ◌≤◌, ◌≡◌, refl, sym, ap, ◌∙◌, inl, inr, ◌⊎◌, false, Option, none, some,
  arith,
}
use kubectl_nvim.Streaming.Channel.{Channel}
use kubectl_nvim.Streaming.Session.{
  modulus, Session, new, close, guard, remaining, count_down, mark_inactive, send, received,
  try_recv, Step, closes, starts, drops, stores, sends, receives, Steps, stop, after,
}

module _ {T : Type 0} (C : Channel T) where
  received_same :
      (s : Session C) (o : Option (T × C.Chan))
      → ((received C s o).1.is_active ≡ s.is_active)
        × ((received C s o).1.active_task_count ≡ s.active_task_count)
        × ((received C s o).1.guards ≡ s.guards)
        × ((received C s o).1.finishing ≡ s.finishing)
  received_same s none = (refl, refl, refl, refl)
  received_same s (some (m, c)) = (refl, refl, refl, refl)

  -- The count is the number of guards.
  abbrev Counted : Session C → Type 0
  Counted s = s.active_task_count ≡ s.guards % modulus

  step-Counted : (s t : Session C) → Step C s t → Counted s → Counted t
  unfolding close guard count_down mark_inactive send try_recv
  step-Counted s t closes h = h
  step-Counted s t starts h = omega (arith, h)
  step-Counted s t (drops n g) h = omega (arith, g, h)
  step-Counted s t (stores n g) h = h
  step-Counted s t (sends m) h = h
  step-Counted s t receives h =
      let (_, c, g, _) = received_same s (C.try_recv s.receiver) in
      c ∙ h ∙ ap (λ n. n % modulus) (sym g)

  path-Counted : (s t : Session C) → Steps C s t → Counted s → Counted t
  path-Counted s t stop h = h
  path-Counted s u (after {t} path step) h = step-Counted t u step (path-Counted s t path h)

  -- After any interleaving of steps from a new session, the count is the number of the guards that
  -- live, modulo the number of values of its type.
  pub count-guards : (s : Session C) → Steps C (new C) s → s.active_task_count ≡ s.guards % modulus
  count-guards s path = path-Counted (new C) s path refl

  -- Without a task that lives or finishes the session is closed.
  abbrev Watched : Session C → Type 0
  Watched s = (1 ≤ s.guards + s.finishing) ⊎ (s.is_active ≡ false)

  drop-Watched : (s : Session C) (n : ℕ) → s.guards ≡ suc n → Counted s → Watched (count_down C s)
  unfolding count_down
  drop-Watched s zero g h =
      let zero_left : remaining C s ≡ 0 = omega (arith, g, h) in inl (ground (arith, zero_left))
  drop-Watched s (suc n) g h = inl (ground (arith, g))

  step-Watched : (s t : Session C) → Step C s t → Counted s → Watched s → Watched t
  unfolding close guard count_down mark_inactive send try_recv
  step-Watched s t closes h w = inr refl
  step-Watched s t starts h w = inl (omega arith)
  step-Watched s t (drops n g) h w = drop-Watched s n g h
  step-Watched s t (stores n g) h w = inr refl
  step-Watched s t (sends m) h w = w
  step-Watched s t receives h w =
      let (a, _, g, f) = received_same s (C.try_recv s.receiver) in
      elim w [ inl one ↦ inl (rw (g, f) one) | inr shut ↦ inr (a ∙ shut) ]

  path-Watched : (s t : Session C) → Steps C s t → Counted s → Watched s → Watched t
  path-Watched s t stop h w = w
  path-Watched s u (after {t} path step) h w =
      step-Watched t u step (path-Counted s t path h) (path-Watched s t path h w)

  -- After any interleaving of steps in which a task was started, the session is closed if every
  -- guard is dropped and every task that took the count to zero has stored its mark.
  pub last_task_closes :
      (s t : Session C)
      → Steps C (new C) s
      → Steps C (guard C s) t
      → t.guards ≡ 0
      → t.finishing ≡ 0
      → t.is_active ≡ false
  unfolding guard
  last_task_closes s t started path none_left none_finishing =
      let counted = step-Counted s (guard C s) starts (path-Counted (new C) s started refl) in
      elim (path-Watched (guard C s) t path counted (inl (omega arith))) [
        | inl some_left ↦ absurd (omega arith)
        | inr shut ↦ shut
      ]
