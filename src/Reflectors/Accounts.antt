-- ===== src/Reflectors/Accounts.antt =====
-- store.rs: every task that was started is either held by the map, and runs, or was ended.
use mathlib.Core.List.Memᴰ
use kubectl_nvim.Prelude.{
  ℕ, ◌<◌, ◌≡◌, ◌⊎◌, refl, sym, ap, ◌∙◌, inl, inr, text_eq, option_eq, pair_eq, ◌==◌, pair_beq_iff,
  Bool-cases, Option-cases, true, false, none, some, List, [], ◌∷◌, Memᴰ, lookup, insert, remove,
  lookup-insert, lookup-remove, arith, ltb, ==_refl,
}
use kubectl_nvim.Reflectors.Store.{
  ReflectorKey, ReflectorData, StoreMap, World, no_reflectors, shut_down, shut_down_each,
  create_reflector,
}

-- Task `n` is held by the map.
abbrev pub Held : StoreMap → ℕ → Type 0
Held m n = (k : ReflectorKey) × (d : ReflectorData) × (lookup k m ≡ some d) × (d.task ≡ n)

pub record Accounted (w : World) : Type 0 where
  pub below :
      (k : ReflectorKey) (d : ReflectorData) → lookup k w.reflectors ≡ some d → d.task < w.started
  pub live :
      (k : ReflectorKey) (d : ReflectorData)
      → lookup k w.reflectors ≡ some d
      → Memᴰ d.task w.cancelled
      → ⊥
  pub own :
      (j k : ReflectorKey) (d e : ReflectorData)
      → lookup j w.reflectors ≡ some d
      → lookup k w.reflectors ≡ some e
      → d.task ≡ e.task
      → j ≡ k
  pub ended : (n : ℕ) → Memᴰ n w.cancelled → n < w.started
  pub kept : (n : ℕ) → n < w.started → Memᴰ n w.cancelled ⊎ Held w.reflectors n
  pub together : w.aborted ≡ w.cancelled

pub no_reflectors-Accounted : Accounted no_reflectors
unfolding lookup
no_reflectors-Accounted = record {
  below = λ k d h. absurd (ground arith);
  live = λ k d h m. absurd (ground arith);
  own = λ j k d e h g same. absurd (ground arith);
  ended = λ n m. absurd (Memᴰ.not-nil m);
  kept = λ n h. absurd (omega arith);
  together = refl;
}

module _ (w : World) (a : Accounted w) (k : ReflectorKey) where
  -- An entry that another key's removal leaves.
  left_by :
      (j : ReflectorKey) (e : ReflectorData)
      → lookup j (remove k w.reflectors) ≡ some e
      → ((k == j) ≡ false) × (lookup j w.reflectors ≡ some e)
  left_by j e h = elim (Bool-cases (k == j)) [
    | inl same ↦
        let found = sym (lookup-remove k j w.reflectors) ∙ h in
        absurd (ground (arith, rw same at found))
    | inr other ↦ let found = sym (lookup-remove k j w.reflectors) ∙ h in (other, rw other at found)
  ]

  abbrev without : ReflectorData → World
  without d = record w {
    reflectors = remove k w.reflectors;
    cancelled = d.task ∷ w.cancelled;
    aborted = d.task ∷ w.aborted;
  }

  agree :
      (d : ReflectorData)
      → lookup k w.reflectors ≡ some d
      → (j : ReflectorKey) (e : ReflectorData) → lookup j w.reflectors ≡ some e
      → (k == j) ≡ true
      → (n : ℕ) → e.task ≡ n
      → n ≡ d.task
  agree d at j e was same n task =
      let found = ap (λ i. lookup i w.reflectors) ((pair_beq_iff k j).0 same) in
      let both : d ≡ e = cc (at, found, was) in cc (both, task)

  taken :
      lookup k w.reflectors ≡ none
      → (j : ReflectorKey) (e : ReflectorData) → lookup j w.reflectors ≡ some e
      → (k == j) ≡ true
      → ⊥
  taken free j e was same =
      let found = ap (λ i. lookup i w.reflectors) ((pair_beq_iff k j).0 same) in
      cc (free, found, was)

  without-Accounted : (d : ReflectorData) → lookup k w.reflectors ≡ some d → Accounted (without d)
  without-Accounted d at = record {
    below = λ j e h. a.below j e (left_by j e h).1;
    live = λ j e h m.
        let (other, was) = left_by j e h in
        elim (Memᴰ.cases_cons m) [
          | inl same ↦
              let both = (pair_beq_iff k j).1 (sym (a.own j k e d was at same)) in
              absurd (ground arith)
          | inr old ↦ a.live j e was old
        ];
    own = λ i j e f h g same. a.own i j e f (left_by i e h).1 (left_by j f g).1 same;
    ended = λ n m. elim (Memᴰ.cases_cons m) [
      | inl same ↦ rw same (a.below k d at)
      | inr old ↦ a.ended n old
    ];
    kept = λ n h. elim (a.kept n h) [
      | inl old ↦ inl (Memᴰ.tail old)
      | inr (j, e, was, task) ↦ elim (Bool-cases (k == j)) [
        | inl same ↦ inl (Memᴰ.head (agree d at j e was same n task))
        | inr other ↦ inr (j, e, lookup-remove k j w.reflectors ∙ rw other was, task)
      ]
    ];
    together = ap (λ ts. d.task ∷ ts) a.together;
  }

  pub shut_down-Accounted : Accounted (shut_down k w)
  unfolding shut_down
  shut_down-Accounted = elim (Option-cases (lookup k w.reflectors)) [
    | inl free ↦ rw free a
    | inr (d, at) ↦ rw at (without-Accounted d at)
  ]

  abbrev fresh : ReflectorData
  fresh = record { store = w.started; task = w.started }

  -- An entry after the insertion is the new one or an old one.
  came_from :
      (j : ReflectorKey) (e : ReflectorData)
      → lookup j (insert k fresh w.reflectors) ≡ some e
      → ((k ≡ j) × (fresh ≡ e)) ⊎ (lookup j w.reflectors ≡ some e)
  came_from j e h =
      let found = sym (lookup-insert k j fresh w.reflectors) ∙ h in
      elim (Bool-cases (k == j)) [
        | inl same ↦ inl ((pair_beq_iff k j).0 same, cc (rw same at found))
        | inr other ↦ inr (rw other at found)
      ]

  task_of : {e : ReflectorData} → fresh ≡ e → w.started ≡ e.task
  task_of same = ap (λ (x : ReflectorData). x.task) same

  pub create_reflector-Accounted : lookup k w.reflectors ≡ none → Accounted (create_reflector k w)
  unfolding create_reflector
  create_reflector-Accounted free =
      let still : (j : ReflectorKey) (e : ReflectorData)
          → lookup j w.reflectors ≡ some e
          → lookup j (insert k fresh w.reflectors) ≡ some e =
        λ j e was. elim (Bool-cases (k == j)) [
          | inl same ↦ absurd (taken free j e was same)
          | inr other ↦ lookup-insert k j fresh w.reflectors ∙ rw other was
        ] in
      record {
        below = λ j e h. elim (came_from j e h) [
          | inl (_, new) ↦ rw (← new) (omega arith)
          | inr old ↦ omega (arith, a.below j e old)
        ];
        live = λ j e h m. elim (came_from j e h) [
          | inl (_, new) ↦ omega (arith, a.ended e.task m, task_of new)
          | inr old ↦ a.live j e old m
        ];
        own = λ i j e f h g same. elim (came_from i e h) [
          | inl (at, new) ↦ elim (came_from j f g) [
            | inl (at', _) ↦ sym at ∙ at'
            | inr old ↦ absurd (omega (arith, a.below j f old, task_of new))
          ]
          | inr old ↦ elim (came_from j f g) [
            | inl (_, new) ↦ absurd (omega (arith, a.below i e old, task_of new))
            | inr old' ↦ a.own i j e f old old' same
          ]
        ];
        ended = λ n m. omega (arith, a.ended n m);
        kept = λ n h. elim (Bool-cases (ltb n w.started)) [
          | inl old ↦ elim (a.kept n (ground arith)) [
            | inl gone ↦ inl gone
            | inr (j, e, was, task) ↦ inr (j, e, still j e was, task)
          ]
          | inr new ↦
              inr
                (k, fresh, lookup-insert k k fresh w.reflectors ∙ rw (==_refl k) refl, ground arith)
        ];
        together = a.together;
      }

pub each-Accounted :
    (ks : List ReflectorKey) (w : World) → Accounted w → Accounted (shut_down_each ks w)
each-Accounted [] w a = a
each-Accounted (k ∷ ks) w a = each-Accounted ks (shut_down k w) (shut_down-Accounted w a k)
