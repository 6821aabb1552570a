-- ===== src/Prelude/Lists.antt =====
-- Lists measured and indexed by native numbers, Boolean quantifiers, and membership.
use Prim.Native.Nat.{ℕ, zero, suc, ◌+◌, ◌<◌}
use mathlib.Core.Path.{◌≡◌, refl, ap, sym}
use mathlib.Core.Path.{subst}
use mathlib.Core.Logic.{◌≢◌, ◌↔◌, ◌⊎◌, inl, inr, ⊎_elim}
use mathlib.Core.Bool.{Bool, true, false, ◌&&◌, ◌||◌}
use mathlib.Core.List.{List, [], ◌∷◌, ◌++◌, Memᴰ, append_assoc, map}
use mathlib.Core.List.Memᴰ
use mathlib.Core.Option.{Option, none, some}
use native.Mathlib.Omega.{arith}
use kubectl_nvim.Prelude.Tests.{if◌then◌else◌, Bool-cases}

module _ {ℓ} {A : Type ℓ} where
  abbrev pub length : List A → ℕ
  length [] = 0
  length (x ∷ xs) = suc (length xs)

  abbrev pub get_elem? : List A → ℕ → Option A
  get_elem? [] i = none
  get_elem? (x ∷ xs) zero = some x
  get_elem? (x ∷ xs) (suc i) = get_elem? xs i

  abbrev pub set : List A → ℕ → A → List A
  set [] i v = []
  set (x ∷ xs) zero v = v ∷ xs
  set (x ∷ xs) (suc i) v = x ∷ set xs i v

  -- Rust's `iter().any(p)`, `iter().all(p)` and `filter(p)`.
  abbrev pub any : (A → Bool) → List A → Bool
  any p [] = false
  any p (x ∷ xs) = p x || any p xs

  abbrev pub all : (A → Bool) → List A → Bool
  all p [] = true
  all p (x ∷ xs) = p x && all p xs

  abbrev pub keep : (A → Bool) → List A → List A
  keep p [] = []
  keep p (x ∷ xs) = let rest = keep p xs in if p x then x ∷ rest else rest

  -- `iter().find(p)`.
  abbrev pub find : (A → Bool) → List A → Option A
  find p [] = none
  find p (x ∷ xs) = let rest = find p xs in if p x then some x else rest

  pub length-append : (xs ys : List A) → length (xs ++ ys) ≡ length xs + length ys
  length-append [] ys = omega arith
  length-append (x ∷ xs) ys = omega (arith, length-append xs ys)

  pub length-set : (xs : List A) (i : ℕ) (v : A) → length (set xs i v) ≡ length xs
  length-set [] i v = refl
  length-set (x ∷ xs) zero v = refl
  length-set (x ∷ xs) (suc i) v = ap suc (length-set xs i v)

  pub get_elem?-append_left :
      (xs ys : List A) (i : ℕ) {a : A} → get_elem? xs i ≡ some a → get_elem? (xs ++ ys) i ≡ some a
  get_elem?-append_left [] ys i h = ground arith
  get_elem?-append_left (x ∷ xs) ys zero h = h
  get_elem?-append_left (x ∷ xs) ys (suc i) h = get_elem?-append_left xs ys i h

  pub get_elem?-concat : (xs : List A) (a : A) → get_elem? (xs ++ a ∷ []) (length xs) ≡ some a
  get_elem?-concat [] a = refl
  get_elem?-concat (x ∷ xs) a = get_elem?-concat xs a

  pub lt-length_of_get_elem? :
      (xs : List A) (i : ℕ) {a : A} → get_elem? xs i ≡ some a → i < length xs
  lt-length_of_get_elem? [] i h = ground arith
  lt-length_of_get_elem? (x ∷ xs) zero h = omega arith
  lt-length_of_get_elem? (x ∷ xs) (suc i) h = omega (arith, lt-length_of_get_elem? xs i h)

  pub get_elem?_of_lt : (xs : List A) (i : ℕ) → i < length xs → (a : A) × (get_elem? xs i ≡ some a)
  get_elem?_of_lt [] i h = absurd (omega arith)
  get_elem?_of_lt (x ∷ xs) zero h = (x, refl)
  get_elem?_of_lt (x ∷ xs) (suc i) h = get_elem?_of_lt xs i (omega arith)

  pub Memᴰ-cons : (a x : A) (xs : List A) → Memᴰ a (x ∷ xs) ↔ ((a ≡ x) ⊎ Memᴰ a xs)
  Memᴰ-cons a x xs = (Memᴰ.cases_cons, ⊎_elim Memᴰ.head Memᴰ.tail)

  pub Memᴰ-append : (a : A) (xs ys : List A) → Memᴰ a (xs ++ ys) ↔ (Memᴰ a xs ⊎ Memᴰ a ys)
  Memᴰ-append a xs ys = (Memᴰ.append_cases xs, ⊎_elim (Memᴰ.append_left ys) (Memᴰ.append_right xs))

  pub Memᴰ-keep :
      (p : A → Bool) (a : A) (xs : List A) → Memᴰ a (keep p xs) ↔ (Memᴰ a xs × (p a ≡ true))
  Memᴰ-keep p a [] = (λ m. absurd (Memᴰ.not-nil m), λ m. absurd (Memᴰ.not-nil m.0))
  Memᴰ-keep p a (x ∷ xs) =
      ground (arith, Memᴰ-keep p a xs, Memᴰ-cons a x xs, Memᴰ-cons a x (keep p xs))

  pub any_iff : (p : A → Bool) (xs : List A) → any p xs ≡ true → (a : A) × Memᴰ a xs × (p a ≡ true)
  any_iff p [] h = ground arith
  any_iff p (x ∷ xs) h = elim (Bool-cases (p x)) [
    | inl e ↦ (x, Memᴰ.head refl, e)
    | inr e ↦ let (a, m, q) = any_iff p xs (rw e at h) in (a, Memᴰ.tail m, q)
  ]

  pub any_of_Memᴰ : (p : A → Bool) (a : A) (xs : List A) → Memᴰ a xs → p a ≡ true → any p xs ≡ true
  any_of_Memᴰ p a [] m h = absurd (Memᴰ.not-nil m)
  any_of_Memᴰ p a (x ∷ xs) m h = ground (arith, any_of_Memᴰ p a xs, Memᴰ-cons a x xs)

  pub all_of_Memᴰ : (p : A → Bool) (a : A) (xs : List A) → all p xs ≡ true → Memᴰ a xs → p a ≡ true
  all_of_Memᴰ p a [] h m = absurd (Memᴰ.not-nil m)
  all_of_Memᴰ p a (x ∷ xs) h m = ground (arith, all_of_Memᴰ p a xs, Memᴰ-cons a x xs)

  pub all_intro :
      (p : A → Bool) (xs : List A) → ((a : A) → Memᴰ a xs → p a ≡ true) → all p xs ≡ true
  all_intro p [] h = refl
  all_intro p (x ∷ xs) h =
      ground (arith, h x (Memᴰ.head refl), all_intro p xs (λ a m. h a (Memᴰ.tail m)))

  pub any-append : (p : A → Bool) (xs ys : List A) → any p (xs ++ ys) ≡ (any p xs || any p ys)
  any-append p [] ys = refl
  any-append p (x ∷ xs) ys = ground (arith, any-append p xs ys)

  pub find-some :
      (p : A → Bool) (xs : List A) {a : A} → find p xs ≡ some a → Memᴰ a xs × (p a ≡ true)
  find-some p [] h = ground arith
  find-some p (x ∷ xs) h = elim (Bool-cases (p x)) [
    | inl e ↦ ground (arith, Memᴰ-cons x x xs)
    | inr e ↦ let (m, q) = find-some p xs (rw e at h) in (Memᴰ.tail m, q)
  ]

  pub find-none : (p : A → Bool) (a : A) (xs : List A) → find p xs ≡ none → Memᴰ a xs → p a ≡ false
  find-none p a [] h m = absurd (Memᴰ.not-nil m)
  find-none p a (x ∷ xs) h m = ground (arith, find-none p a xs, Memᴰ-cons a x xs)

  pub get_elem?-concat_cases :
      (xs : List A) (a : A) (i : ℕ) {b : A}
      → get_elem? (xs ++ a ∷ []) i ≡ some b
      → (get_elem? xs i ≡ some b) ⊎ ((i ≡ length xs) × (a ≡ b))
  get_elem?-concat_cases [] a zero h = ground arith
  get_elem?-concat_cases [] a (suc i) h = ground arith
  get_elem?-concat_cases (x ∷ xs) a zero h = inl h
  get_elem?-concat_cases (x ∷ xs) a (suc i) h = ground (arith, get_elem?-concat_cases xs a i h)

  pub keep-append : (p : A → Bool) (xs ys : List A) → keep p (xs ++ ys) ≡ keep p xs ++ keep p ys
  keep-append p [] ys = refl
  keep-append p (x ∷ xs) ys = ground (arith, keep-append p xs ys)

  pub get_elem?-set_cases :
      (xs : List A) (i j : ℕ) (v a : A)
      → get_elem? (set xs i v) j ≡ some a
      → ((i ≡ j) × (v ≡ a)) ⊎ ((get_elem? xs j ≡ some a) × (i ≢ j))
  get_elem?-set_cases [] i j v a h = ground arith
  get_elem?-set_cases (x ∷ xs) zero zero v a h = ground arith
  get_elem?-set_cases (x ∷ xs) zero (suc j) v a h = inr (h, omega arith)
  get_elem?-set_cases (x ∷ xs) (suc i) zero v a h = inr (h, omega arith)
  get_elem?-set_cases (x ∷ xs) (suc i) (suc j) v a h = elim (get_elem?-set_cases xs i j v a h) [
    | inl (e, same) ↦ inl (ap suc e, same)
    | inr (old, ne) ↦ inr (old, omega arith)
  ]

abbrev pub flat_map {ℓ κ} : {A : Type ℓ} {B : Type κ} → (A → List B) → List A → List B
flat_map f [] = []
flat_map f (a ∷ xs) = f a ++ flat_map f xs

pub Memᴰ-map {ℓ κ} :
    {A : Type ℓ} {B : Type κ} (f : A → B) (xs : List A) (b : B)
    → Memᴰ b (map f xs) ↔ ((a : A) × Memᴰ a xs × (b ≡ f a))
Memᴰ-map f xs b = (
  λ m. let (a, at, e) = Memᴰ.of_map f xs m in (a, at, sym e),
  λ (a, at, e). Memᴰ.cast e (Memᴰ.map f at),
)

pub Memᴰ-flat_map {ℓ κ} :
    {A : Type ℓ} {B : Type κ} (f : A → List B) (xs : List A) (b : B)
    → Memᴰ b (flat_map f xs) ↔ ((a : A) × Memᴰ a xs × Memᴰ b (f a))
Memᴰ-flat_map f [] b = (λ m. absurd (Memᴰ.not-nil m), λ (a, m, _). absurd (Memᴰ.not-nil m))
Memᴰ-flat_map f (a ∷ xs) b = (
  λ m. elim ((Memᴰ-append b (f a) (flat_map f xs)).0 m) [
    | inl n ↦ (a, Memᴰ.head refl, n)
    | inr n ↦ let (c, at, h) = (Memᴰ-flat_map f xs b).0 n in (c, Memᴰ.tail at, h)
  ],
  λ (c, at, h). elim (Memᴰ.cases_cons at) [
    | inl same ↦ Memᴰ.append_left (flat_map f xs) (subst (λ x. Memᴰ b (f x)) same h)
    | inr later ↦ Memᴰ.append_right (f a) ((Memᴰ-flat_map f xs b).1 (c, later, h))
  ],
)

module _ {ℓ} {A : Type ℓ} where
  pub flat_map-append {κ} :
      {B : Type κ} (f : A → List B) (xs ys : List A)
      → flat_map f (xs ++ ys) ≡ flat_map f xs ++ flat_map f ys
  flat_map-append f [] ys = refl
  flat_map-append f (x ∷ xs) ys =
      rw (flat_map-append f xs ys) (sym (append_assoc (f x) (flat_map f xs) (flat_map f ys)))

  pub all-append_eq : (p : A → Bool) (xs ys : List A) → all p (xs ++ ys) ≡ (all p xs && all p ys)
  all-append_eq p [] ys = refl
  all-append_eq p (x ∷ xs) ys = ground (arith, all-append_eq p xs ys)

  pub keep-keep :
      (p q r : A → Bool) (xs : List A)
      → ((a : A) → r a ≡ (p a && q a))
      → keep r xs ≡ keep q (keep p xs)
  keep-keep p q r [] h = refl
  keep-keep p q r (x ∷ xs) h = ground (arith, h x, keep-keep p q r xs h)
