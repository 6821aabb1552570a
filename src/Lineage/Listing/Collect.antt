-- ===== src/Lineage/Listing/Collect.antt =====
-- `iter().map(f).collect()` where `f` may panic.
use mathlib.Core.List.Memᴰ
use mathlib.Core.Path.{subst}
use kubectl_nvim.Prelude.{
  ◌≡◌, ◌↔◌, refl, sym, ap, ◌∙◌, inl, inr, Option, some, List, [], ◌∷◌, Memᴰ, Unique, no_elements,
  new_element,
}
use kubectl_nvim.Lineage.Tree.Link.{◌>>=◌, >>=-eq-some}

unfoldable pub collect : {A B : Type 0} → (A → Option B) → List A → Option (List B)
collect f [] = some []
collect f (x ∷ xs) = f x >>= λ b. collect f xs >>= λ bs. some (b ∷ bs)

module _ {A B : Type 0} (f : A → Option B) where
  -- What is collected from `xs`.
  abbrev pub Collected : List A → List B → Type 0
  Collected xs ys = (b : B) → Memᴰ b ys ↔ ((x : A) × Memᴰ x xs × (f x ≡ some b))

  Collected-cons :
      (x : A) (b : B) (xs : List A) (ys : List B)
      → f x ≡ some b
      → Collected xs ys
      → Collected (x ∷ xs) (b ∷ ys)
  Collected-cons x b xs ys e rest c = (
    λ m. elim (Memᴰ.cases_cons m) [
      | inl same ↦ (x, Memᴰ.head refl, e ∙ ap some (sym same))
      | inr later ↦ let (y, at, h) = (rest c).0 later in (y, Memᴰ.tail at, h)
    ],
    λ (y, at, h). elim (Memᴰ.cases_cons at) [
      | inl same ↦ Memᴰ.head (cc (h, e, ap f same))
      | inr later ↦ Memᴰ.tail ((rest c).1 (y, later, h))
    ],
  )

  pub collect_total :
      (xs : List A)
      → ((x : A) → Memᴰ x xs → (b : B) × (f x ≡ some b))
      → (ys : List B) × (collect f xs ≡ some ys) × Collected xs ys
  unfolding collect
  collect_total [] h =
      ([], refl, λ c. (λ m. absurd (Memᴰ.not-nil m), λ (x, m, _). absurd (Memᴰ.not-nil m)))
  collect_total (x ∷ xs) h =
      let (b, e) = h x (Memᴰ.head refl) in
      let (ys, g, rest) = collect_total xs (λ y m. h y (Memᴰ.tail m)) in
      (b ∷ ys, simp (e, g) refl, Collected-cons x b xs ys e rest)

  -- A collected list by its first element.
  collect-cons :
      (x : A) (xs : List A) (ys : List B)
      → collect f (x ∷ xs) ≡ some ys
      → (b : B) × (bs : List B) × (f x ≡ some b) × (collect f xs ≡ some bs) × (b ∷ bs ≡ ys)
  unfolding collect
  collect-cons x xs ys h =
      let (b, e, rest) = >>=-eq-some (f x) _ h in
      let (bs, g, whole) = >>=-eq-some (collect f xs) _ rest in (b, bs, e, g, cc whole)

  collect_mem :
      (xs : List A) (ys : List B) (b : B)
      → collect f xs ≡ some ys
      → Memᴰ b ys
      → (x : A) × Memᴰ x xs × (f x ≡ some b)
  unfolding collect
  collect_mem [] ys b h m =
      let none_there : [] ≡ ys = cc h in
      absurd (Memᴰ.not-nil (subst (λ zs. Memᴰ b zs) (sym none_there) m))
  collect_mem (x ∷ xs) ys b h m =
      let (c, bs, e, g, whole) = collect-cons x xs ys h in
      elim (Memᴰ.cases_cons (subst (λ zs. Memᴰ b zs) (sym whole) m)) [
        | inl same ↦ (x, Memᴰ.head refl, e ∙ ap some (sym same))
        | inr later ↦ let (y, at, k) = collect_mem xs bs b g later in (y, Memᴰ.tail at, k)
      ]

  -- Where no two elements give the same, nothing repeats.
  pub collect-Unique :
      ((x y : A) (b : B) → f x ≡ some b → f y ≡ some b → x ≡ y)
      → (xs : List A) (ys : List B) → Unique xs
      → collect f xs ≡ some ys
      → Unique ys
  unfolding collect
  collect-Unique apart [] ys u h =
      let none_there : [] ≡ ys = cc h in subst Unique none_there no_elements
  collect-Unique apart (x ∷ xs) ys (new_element new u) h =
      let (b, bs, e, g, whole) = collect-cons x xs ys h in
      subst Unique whole (
        new_element
          (λ m.
            let (y, at, k) = collect_mem xs bs b g m in
            new (subst (λ z. Memᴰ z xs) (apart y x b k e) at))
          (collect-Unique apart xs bs u g))
