-- ===== src/Views/Sorted.antt =====
-- sort.rs: the order in which `sort_dynamic` puts the rows, told by their fields.
use mathlib.Core.Path.{subst}
use mathlib.Core.Bool.{true≢false}
use kubectl_nvim.Prelude.{
  ◌≡◌, ◌≢◌, ◌↔◌, ◌⊎◌, refl, sym, ap, ◌∙◌, inl, inr, Text, txt, text_eq, text_beq_iff, ◌==◌, Option,
  none, some, List, [], ◌∷◌, Memᴰ, Bool, Bool-cases, true, false, keep, trim, is_empty,
  to_lowercase, text_cmp, is_gt, then_with, Ascending, none_left, first, arith, if◌then◌else◌,
}
use Prim.Native.Nat.{Ordering}
use kubectl_nvim.Views.Sort.{
  normalized, value_of, by_field, compare_rows, sort_dynamic, sort_dynamic_sorts,
}

-- What an option of the caller asks for: nothing, or something blank, stands for the default, and
-- else spaces around it and the case do not matter.
pub data Asks (default_value : Text) : Option Text → Text → Type 0 where
  missing : Asks default_value none default_value
  blank : (s : Text) → trim s ≡ [] → Asks default_value (some s) default_value
  given : (s : Text) → trim s ≢ [] → Asks default_value (some s) (to_lowercase (trim s))

-- The first text comes no later in the alphabet.
abbrev pub AtMost : Text → Text → Type 0
AtMost s t = is_gt (text_cmp s t) ≡ false

-- Only the word "desc" turns the order around.
abbrev pub InDirection : Text → Text → Text → Type 0
InDirection order s t = ((order ≡ txt "desc") × AtMost t s) ⊎ ((order ≢ txt "desc") × AtMost s t)

text_cmp_refl : (s : Text) → text_cmp s s ≡ Ordering.eq
unfolding text_cmp
text_cmp_refl [] = refl
text_cmp_refl (x ∷ s) = ground (arith, text_cmp_refl s)

text_cmp_eq : (s t : Text) → text_cmp s t ≡ Ordering.eq → s ≡ t
unfolding text_cmp
text_cmp_eq [] [] h = refl
text_cmp_eq [] (y ∷ t) h = absurd (ground arith)
text_cmp_eq (x ∷ s) [] h = absurd (ground arith)
text_cmp_eq (x ∷ s) (y ∷ t) h = ground (arith, text_cmp_eq s t)

-- Of two comparisons one after the other.
then_with-cases :
    (o p : Ordering)
    → is_gt (then_with o p) ≡ false
    → (is_gt o ≡ false) × ((o ≢ Ordering.eq) ⊎ (is_gt p ≡ false))
then_with-cases Ordering.lt p h = (refl, inl (λ e. ground arith))
then_with-cases Ordering.eq p h = (refl, inr h)
then_with-cases Ordering.gt p h = absurd (ground arith)

word_cases : (s t : Text) → ((s == t) ≡ true) × (s ≡ t) ⊎ ((s == t) ≡ false) × (s ≢ t)
word_cases s t = elim (Bool-cases (s == t)) [
  | inl same ↦ inl (same, (text_beq_iff s t).0 same)
  | inr other ↦ inr (other, λ e. true≢false (sym ((text_beq_iff s t).1 e) ∙ other))
]

lowercase_nonempty : (s : Text) → is_empty s ≡ false → is_empty (to_lowercase s) ≡ false
unfolding to_lowercase
lowercase_nonempty [] h = h
lowercase_nonempty (c ∷ s) h = refl

nonempty_lem : (s : Text) → s ≢ [] → is_empty s ≡ false
nonempty_lem [] h = absurd (h refl)
nonempty_lem (c ∷ s) h = refl

asked_lem : {d : Text} {o : Option Text} {t : Text} → Asks d o t → normalized d o ≡ t
unfolding to_lowercase
asked_lem missing = refl
asked_lem (blank s e) = rw e refl
asked_lem {d} (given s e) =
    ap (λ b. if b then d else to_lowercase (trim s))
      (lowercase_nonempty (trim s) (nonempty_lem (trim s) e))

module _ {T : Type 0} (get_field_value : T → Text → Option Text) where
  abbrev value : T → Text → Text
  value row field = value_of get_field_value field row

  -- A row that may stand before another. By namespace, equal ones are ordered by name, which
  -- always ascends.
  abbrev pub MayPrecede : Text → Text → T → T → Type 0
  MayPrecede field order a b =
      ((field ≢ txt "namespace") × InDirection order (value a field) (value b field))
      ⊎ ((field ≡ txt "namespace")
          × InDirection order (value a (txt "namespace")) (value b (txt "namespace"))
          × ((value a (txt "namespace") ≢ value b (txt "namespace"))
              ⊎ AtMost (value a (txt "name")) (value b (txt "name"))))

  -- No row stands before one that it may not precede.
  pub data Sorted (field order : Text) : List T → Type 0 where
    no_rows : Sorted field order []
    first_row :
        {a : T} {rows : List T}
        → ((b : T) → Memᴰ b rows → MayPrecede field order a b)
        → Sorted field order rows
        → Sorted field order (a ∷ rows)

  -- Rows with the same value, and by namespace also the same name.
  abbrev pub Alike : Text → (T → Bool) → Type 0
  Alike field p =
      (a b : T)
      → p a ≡ true
      → p b ≡ true
      → (value a field ≡ value b field)
        × ((field ≢ txt "namespace") ⊎ (value a (txt "name") ≡ value b (txt "name")))

  by_field_lem :
      (order field : Text) (a b : T)
      → is_gt (by_field get_field_value order field a b) ≡ false
      → InDirection order (value a field) (value b field)
  by_field_lem order field a b h = elim (word_cases order (txt "desc")) [
    | inl (same, e) ↦ inl (e, rw same at h)
    | inr (other, e) ↦ inr (e, rw other at h)
  ]

  by_field_tie :
      (order field : Text) (a b : T)
      → value a field ≡ value b field
      → by_field get_field_value order field a b ≡ Ordering.eq
  by_field_tie order field a b e = elim (word_cases order (txt "desc")) [
    | inl (same, _) ↦
        rw same (ap (λ v. text_cmp (value b field) v) e ∙ text_cmp_refl (value b field))
    | inr (other, _) ↦
        rw other (ap (λ v. text_cmp v (value b field)) e ∙ text_cmp_refl (value b field))
  ]

  precede_lem :
      (field order : Text) (a b : T)
      → is_gt (compare_rows get_field_value field order a b) ≡ false
      → MayPrecede field order a b
  precede_lem field order a b h = elim (word_cases field (txt "namespace")) [
    | inl (same, e) ↦
        let (ns, name) = then_with-cases _ _ (rw same at h) in
        inr (
          e,
          by_field_lem order (txt "namespace") a b ns,
          elim name [
            | inl apart ↦ inl (λ tie. apart (by_field_tie order (txt "namespace") a b tie))
            | inr below ↦ inr below
          ],
        )
    | inr (other, e) ↦ inl (e, by_field_lem order field a b (rw other at h))
  ]

  alike_lem :
      (field order : Text) (a b : T)
      → value a field ≡ value b field
      → (field ≢ txt "namespace") ⊎ (value a (txt "name") ≡ value b (txt "name"))
      → is_gt (compare_rows get_field_value field order a b) ≡ false
  alike_lem field order a b e names = elim (word_cases field (txt "namespace")) [
    | inl (same, ns) ↦
        let tie =
          by_field_tie order (txt "namespace") a b (subst (λ f. value a f ≡ value b f) ns e) in
        rw same (
          ap (λ o. is_gt (then_with o (text_cmp (value a (txt "name")) (value b (txt "name"))))) tie
          ∙ elim names [
            | inl apart ↦ absurd (apart ns)
            | inr names_tie ↦ ap is_gt (
                ap (λ v. text_cmp v (value b (txt "name"))) names_tie
                ∙ text_cmp_refl (value b (txt "name")))
          ])
    | inr (other, _) ↦ rw other (ap is_gt (by_field_tie order field a b e))
  ]

  ascending_lem :
      (field order : Text) (rows : List T)
      → Ascending (compare_rows get_field_value field order) rows
      → Sorted field order rows
  ascending_lem field order [] none_left = no_rows
  ascending_lem field order (a ∷ rows) (first below rest) =
      first_row (λ b m. precede_lem field order a b (below b m))
        (ascending_lem field order rows rest)

  -- Of the field and the order that the caller asks for, or the namespace and ascending by default:
  -- `sort_dynamic` keeps the rows, puts none before one that it may not precede, and leaves rows
  -- that are alike in the order they had.
  pub sort_dynamic-Sorted :
      (by ascent : Option Text) (field order : Text) (rows : List T) (p : T → Bool)
      → Asks (txt "namespace") by field
      → Asks (txt "asc") ascent order
      → Alike field p
      → ((row : T) → Memᴰ row (sort_dynamic get_field_value by ascent rows) ↔ Memᴰ row rows)
        × Sorted field order (sort_dynamic get_field_value by ascent rows)
        × (keep p (sort_dynamic get_field_value by ascent rows) ≡ keep p rows)
  sort_dynamic-Sorted by ascent field order rows p asked_field asked_order alike =
      let chosen_field = normalized (txt "namespace") by in
      let chosen_order = normalized (txt "asc") ascent in
      let same = λ (a b : T).
        ap (λ f. is_gt (compare_rows get_field_value f chosen_order a b)) (asked_lem asked_field)
        ∙ ap (λ o. is_gt (compare_rows get_field_value field o a b)) (asked_lem asked_order) in
      let (all_rows, up, stable) = sort_dynamic_sorts get_field_value by ascent rows p (λ a b h k.
        let (e, names) = alike a b h k in same a b ∙ alike_lem field order a b e names) in
      let sorted = sort_dynamic get_field_value by ascent rows in
      let at_field =
        subst (λ f. Sorted f chosen_order sorted) (asked_lem asked_field)
          (ascending_lem chosen_field chosen_order sorted up) in
      (all_rows, subst (λ o. Sorted field o sorted) (asked_lem asked_order) at_field, stable)
