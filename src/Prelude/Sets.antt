-- ===== src/Prelude/Sets.antt =====
-- A `HashSet` of indices, as a list in which no element repeats.
use mathlib.Core.Path.{◌≡◌, refl, sym, ◌∙◌}
use mathlib.Core.Logic.{◌↔◌, ◌⊎◌, inl, inr}
use mathlib.Core.Bool.{Bool, true, false≢true}
use mathlib.Core.List.{List, [], ◌∷◌, Memᴰ}
use mathlib.Core.List.Memᴰ
use mathlib.Core.Path.{subst}
use native.Mathlib.Omega.{arith}
use Prim.Native.Nat.{ℕ, Ordering}
use kubectl_nvim.Prelude.Tests.{if◌then◌else◌, Bool-cases, nat_eq, nat_eq_iff}
use kubectl_nvim.Prelude.Lists.{any, any_iff, any_of_Memᴰ, Memᴰ-cons}
use kubectl_nvim.Prelude.Sorting.{is_gt, put, Memᴰ-put, sort_by, Memᴰ-sort_by}

pub data Unique {ℓ} {A : Type ℓ} : List A → Type ℓ where
  no_elements : Unique []
  new_element : {a : A} {xs : List A} → ¬ Memᴰ a xs → Unique xs → Unique (a ∷ xs)

abbrev pub contains_index : List ℕ → ℕ → Bool
contains_index xs i = any (nat_eq i) xs

pub contains_index_iff : (xs : List ℕ) (i : ℕ) → (contains_index xs i ≡ true) ↔ Memᴰ i xs
contains_index_iff xs i = (
  λ h.
      let (j, m, same) = any_iff (nat_eq i) xs h in
      subst (λ k. Memᴰ k xs) (sym ((nat_eq_iff i j).0 same)) m,
  λ m. any_of_Memᴰ (nat_eq i) i xs m ((nat_eq_iff i i).1 refl),
)

-- `HashSet::insert`: an element that is there is not put in again.
abbrev pub insert_index : ℕ → List ℕ → List ℕ
insert_index i xs = if contains_index xs i then xs else i ∷ xs

-- `HashSet::extend`, or a loop that inserts.
unfoldable pub extend : List ℕ → List ℕ → List ℕ
extend xs [] = xs
extend xs (y ∷ ys) = insert_index y (extend xs ys)

Memᴰ-insert_index : (x i : ℕ) (xs : List ℕ) → Memᴰ x (insert_index i xs) ↔ ((x ≡ i) ⊎ Memᴰ x xs)
Memᴰ-insert_index x i xs = elim (Bool-cases (contains_index xs i)) [
  | inl there ↦ rw there (
    λ m. inr m,
    λ h. elim h [
      | inl same ↦ subst (λ k. Memᴰ k xs) (sym same) ((contains_index_iff xs i).0 there)
      | inr m ↦ m
    ],
  )
  | inr fresh ↦ rw fresh (Memᴰ-cons x i xs)
]

insert_index-Unique : (i : ℕ) (xs : List ℕ) → Unique xs → Unique (insert_index i xs)
insert_index-Unique i xs u = elim (Bool-cases (contains_index xs i)) [
  | inl there ↦ rw there u
  | inr fresh ↦
      rw fresh (new_element (λ m. false≢true (sym fresh ∙ (contains_index_iff xs i).1 m)) u)
]

pub Memᴰ-extend : (x : ℕ) (xs ys : List ℕ) → Memᴰ x (extend xs ys) ↔ (Memᴰ x xs ⊎ Memᴰ x ys)
unfolding extend
Memᴰ-extend x xs [] = (λ m. inl m, λ h. elim h [ inl m ↦ m | inr m ↦ absurd (Memᴰ.not-nil m) ])
Memᴰ-extend x xs (y ∷ ys) =
    ground (arith, Memᴰ-insert_index x y (extend xs ys), Memᴰ-extend x xs ys, Memᴰ-cons x y ys)

pub extend-Unique : (xs ys : List ℕ) → Unique xs → Unique (extend xs ys)
unfolding extend
extend-Unique xs [] u = u
extend-Unique xs (y ∷ ys) u = insert_index-Unique y (extend xs ys) (extend-Unique xs ys u)

module _ {A : Type 0} (cmp : A → A → Ordering) where
  put-Unique : (a : A) (xs : List A) → ¬ Memᴰ a xs → Unique xs → Unique (put cmp a xs)
  put-Unique a [] out u = new_element out u
  put-Unique a (b ∷ bs) out (new_element new rest) = elim (Bool-cases (is_gt (cmp a b))) [
    | inl after ↦ rw after (
        new_element
          (λ m. elim (Memᴰ.cases_cons ((Memᴰ-put cmp b a bs).0 m)) [
            | inl same ↦ out (Memᴰ.head (sym same))
            | inr later ↦ new later
          ])
          (put-Unique a bs (λ m. out (Memᴰ.tail m)) rest))
    | inr before ↦ rw before (new_element out (new_element new rest))
  ]

  -- Sorting repeats nothing.
  pub sort_by-Unique : (xs : List A) → Unique xs → Unique (sort_by cmp xs)
  unfolding sort_by
  sort_by-Unique [] u = no_elements
  sort_by-Unique (a ∷ xs) (new_element new u) =
      put-Unique a (sort_by cmp xs) (λ m. new ((Memᴰ-sort_by cmp a xs).0 m)) (sort_by-Unique xs u)
