-- ===== src/Prelude/Sorting.antt =====
-- Rust's `Ordering`, the order of texts, and the stable `sort_by`.
use mathlib.Core.Path.{◌≡◌, refl, ◌∙◌}
use mathlib.Core.Logic.{◌↔◌, inl, inr}
use mathlib.Core.Bool.{Bool, true, false}
use mathlib.Core.List.{List, [], ◌∷◌, Memᴰ}
use mathlib.Core.List.Memᴰ
use native.Mathlib.Omega.{arith}
use Prim.Native.Nat.{compare, Ordering}
use kubectl_nvim.Prelude.Tests.{if◌then◌else◌, Bool-cases}
use kubectl_nvim.Prelude.Lists.{keep, Memᴰ-cons, Memᴰ-keep}
use kubectl_nvim.Prelude.Strings.{Text}

abbrev pub then_with : Ordering → Ordering → Ordering
then_with Ordering.lt o = Ordering.lt
then_with Ordering.eq o = o
then_with Ordering.gt o = Ordering.gt

abbrev pub swapped : Ordering → Ordering
swapped Ordering.lt = Ordering.gt
swapped Ordering.eq = Ordering.eq
swapped Ordering.gt = Ordering.lt

abbrev pub is_gt : Ordering → Bool
is_gt Ordering.lt = false
is_gt Ordering.eq = false
is_gt Ordering.gt = true

unfoldable pub text_cmp : Text → Text → Ordering
text_cmp [] [] = Ordering.eq
text_cmp [] (y ∷ ys) = Ordering.lt
text_cmp (x ∷ xs) [] = Ordering.gt
text_cmp (x ∷ xs) (y ∷ ys) = then_with (compare x y) (text_cmp xs ys)

module _ {A : Type 0} (cmp : A → A → Ordering) where
  -- What a comparison has to meet for `sort_by` to sort.
  pub record IsOrder : Type 0 where
    pub swap : (a b : A) → cmp b a ≡ swapped (cmp a b)
    pub trans :
        (a b c : A) → is_gt (cmp a b) ≡ false → is_gt (cmp b c) ≡ false → is_gt (cmp a c) ≡ false

  abbrev pub put : A → List A → List A
  put a [] = a ∷ []
  put a (b ∷ bs) = let rest = put a bs in if is_gt (cmp a b) then b ∷ rest else a ∷ b ∷ bs

  unfoldable pub sort_by : List A → List A
  sort_by [] = []
  sort_by (a ∷ xs) = put a (sort_by xs)

  pub data Ascending : List A → Type 0 where
    none_left : Ascending []
    first :
        {a : A} {xs : List A}
        → ((b : A) → Memᴰ b xs → is_gt (cmp a b) ≡ false)
        → Ascending xs
        → Ascending (a ∷ xs)

  pub Memᴰ-put : (b a : A) (xs : List A) → Memᴰ b (put a xs) ↔ Memᴰ b (a ∷ xs)
  Memᴰ-put b a [] = (λ m. m, λ m. m)
  Memᴰ-put b a (c ∷ xs) = elim (Bool-cases (is_gt (cmp a c))) [
    | inl after ↦ rw after (
        ground (
          arith,
          Memᴰ-cons b c (put a xs),
          Memᴰ-cons b c xs,
          Memᴰ-cons b a (c ∷ xs),
          Memᴰ-cons b a xs,
          Memᴰ-put b a xs,
        ))
    | inr before ↦ rw before (λ m. m, λ m. m)
  ]

  pub Memᴰ-sort_by : (b : A) (xs : List A) → Memᴰ b (sort_by xs) ↔ Memᴰ b xs
  unfolding sort_by
  Memᴰ-sort_by b [] = (λ m. m, λ m. m)
  Memᴰ-sort_by b (a ∷ xs) = ground (
    arith,
    Memᴰ-put b a (sort_by xs),
    Memᴰ-cons b a (sort_by xs),
    Memᴰ-cons b a xs,
    Memᴰ-sort_by b xs,
  )

  put-Ascending : IsOrder → (a : A) (xs : List A) → Ascending xs → Ascending (put a xs)
  put-Ascending o a [] s = first (λ b m. absurd (Memᴰ.not-nil m)) none_left
  put-Ascending o a (c ∷ xs) (first below rest) = elim (Bool-cases (is_gt (cmp a c))) [
    | inl after ↦
        let under : is_gt (cmp c a) ≡ false = ground (arith, o.swap a c) in
        rw after (
          first {a = c}
            (λ b m. elim (Memᴰ.cases_cons ((Memᴰ-put b a xs).0 m)) [
              | inl same ↦ rw same under
              | inr later ↦ below b later
            ])
            (put-Ascending o a xs rest))
    | inr before ↦ rw before (
        first {a = a}
          (λ b m. elim (Memᴰ.cases_cons m) [
            | inl same ↦ rw same before
            | inr later ↦ o.trans a c b before (below b later)
          ])
          (first below rest))
  ]

  -- Sorting with a lawful comparison leaves no element before one that is less.
  pub sort_by-Ascending : IsOrder → (xs : List A) → Ascending (sort_by xs)
  unfolding sort_by
  sort_by-Ascending o [] = none_left
  sort_by-Ascending o (a ∷ xs) = put-Ascending o a (sort_by xs) (sort_by-Ascending o xs)

  -- What is kept of elements in order is in order.
  pub keep-Ascending : (p : A → Bool) (xs : List A) → Ascending xs → Ascending (keep p xs)
  keep-Ascending p [] none_left = none_left
  keep-Ascending p (x ∷ xs) (first below rest) = elim (Bool-cases (p x)) [
    | inl held ↦
        rw held
          (first {a = x} (λ b m. below b ((Memᴰ-keep p b xs).0 m).0) (keep-Ascending p xs rest))
    | inr lost ↦ rw lost (keep-Ascending p xs rest)
  ]

  -- A test that only elements pass of which none is greater than another.
  abbrev pub IsTied : (A → Bool) → Type 0
  IsTied p = (a b : A) → p a ≡ true → p b ≡ true → is_gt (cmp a b) ≡ false

  keep-put : (p : A → Bool) → IsTied p → (a : A) (xs : List A) → keep p (put a xs) ≡ keep p (a ∷ xs)
  keep-put p tied a [] = refl
  keep-put p tied a (c ∷ xs) = ground (arith, tied a c, keep-put p tied a xs)

  -- The sort is stable: elements that tie keep their order.
  pub keep-sort_by : (p : A → Bool) → IsTied p → (xs : List A) → keep p (sort_by xs) ≡ keep p xs
  unfolding sort_by
  keep-sort_by p tied [] = refl
  keep-sort_by p tied (a ∷ xs) =
      keep-put p tied a (sort_by xs) ∙ ground (arith, keep-sort_by p tied xs)

text_cmp_swap : (s t : Text) → text_cmp t s ≡ swapped (text_cmp s t)
unfolding text_cmp
text_cmp_swap [] [] = refl
text_cmp_swap [] (y ∷ ys) = refl
text_cmp_swap (x ∷ xs) [] = refl
text_cmp_swap (x ∷ xs) (y ∷ ys) = ground (arith, text_cmp_swap xs ys)

text_cmp_trans :
    (s t u : Text)
    → is_gt (text_cmp s t) ≡ false
    → is_gt (text_cmp t u) ≡ false
    → is_gt (text_cmp s u) ≡ false
unfolding text_cmp
text_cmp_trans [] t [] h k = refl
text_cmp_trans [] t (z ∷ zs) h k = refl
text_cmp_trans (x ∷ xs) [] u h k = absurd (ground arith)
text_cmp_trans (x ∷ xs) (y ∷ ys) [] h k = absurd (ground arith)
text_cmp_trans (x ∷ xs) (y ∷ ys) (z ∷ zs) h k = ground (arith, text_cmp_trans xs ys zs)

pub text_cmp-IsOrder : IsOrder text_cmp
text_cmp-IsOrder = record { swap = text_cmp_swap; trans = text_cmp_trans }

module _ {A : Type 0} where
  abbrev pub on : {B : Type 0} → (A → B) → (B → B → Ordering) → A → A → Ordering
  on f cmp a b = cmp (f a) (f b)

  pub on-IsOrder :
      {B : Type 0} (f : A → B) {cmp : B → B → Ordering} → IsOrder cmp → IsOrder (on f cmp)
  on-IsOrder f o = record {
    swap = λ a b. o.swap (f a) (f b);
    trans = λ a b c. o.trans (f a) (f b) (f c);
  }

  abbrev pub flipped : (A → A → Ordering) → A → A → Ordering
  flipped cmp a b = cmp b a

  pub flipped-IsOrder : {cmp : A → A → Ordering} → IsOrder cmp → IsOrder (flipped cmp)
  flipped-IsOrder o = record { swap = λ a b. o.swap b a; trans = λ a b c h k. o.trans c b a k h }

  abbrev pub both : (A → A → Ordering) → (A → A → Ordering) → A → A → Ordering
  both f g a b = then_with (f a b) (g a b)

  pub both-IsOrder : {f g : A → A → Ordering} → IsOrder f → IsOrder g → IsOrder (both f g)
  both-IsOrder {f} {g} o p = record {
    swap = λ a b. ground (arith, o.swap a b, p.swap a b);
    trans = λ a b c h k. ground (
      arith,
      o.trans a b c,
      p.trans a b c,
      o.trans b c a,
      o.trans c a b,
      o.swap a b,
      o.swap b c,
      o.swap a c,
      o.swap c a,
      o.swap b a,
      o.swap c b,
    );
  }
