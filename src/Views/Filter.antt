-- ===== src/Views/Filter.antt =====
-- filter.rs: `filter_dynamic`.
use kubectl_nvim.Prelude.{
  ◌≡◌, ap, ◌∙◌, Text, txt, Option, none, some, List, [], ◌∷◌, ◌++◌, Bool, false, not, all, any,
  keep, flat_map, trim, is_empty, starts_with, contains, split, split-join, flat_map-append,
  all-append_eq, keep-keep, if◌then◌else◌,
}

-- A pattern: whether it is negative, and its text.
abbrev pub Pattern : Type 0
Pattern = Bool × Text

abbrev pub rest_of : Text → Text
rest_of [] = []
rest_of (c ∷ s) = s

abbrev pub compile_one : Text → List Pattern
compile_one segment =
    let raw = trim segment in
    let negative = starts_with (txt "!") raw in
    if is_empty raw then [] else (negative, if negative then rest_of raw else raw) ∷ []

unfoldable pub compile : Text → List Pattern
compile patterns = flat_map compile_one (split b',' patterns)

module _ {T : Type 0} (fields : List Text) (get_field_value : T → Text → Option Text) where
  abbrev pub field_contains : T → Text → Text → Bool
  field_contains item pat field = elim (get_field_value item field) [
    | none ↦ false
    | some val ↦ contains pat val
  ]

  abbrev pub passes : T → Pattern → Bool
  passes item (negative, pat) =
      let found = any (field_contains item pat) fields in if negative then not found else found

  unfoldable pub filter_dynamic : List T → Text → List T
  filter_dynamic data_rows patterns = keep (λ item. all (passes item) (compile patterns)) data_rows

  -- Two pattern lists joined by a comma filter as the one list does after the other.
  pub filter_dynamic-comma :
      (rows : List T) (p q : Text)
      → filter_dynamic rows (p ++ b',' ∷ q) ≡ filter_dynamic (filter_dynamic rows p) q
  unfolding filter_dynamic compile
  filter_dynamic-comma rows p q =
      let joined =
        ap (flat_map compile_one) (split-join b',' p q)
        ∙ flat_map-append compile_one (split b',' p) (split b',' q) in
      keep-keep (λ item. all (passes item) (compile p)) (λ item. all (passes item) (compile q))
        (λ item. all (passes item) (compile (p ++ b',' ∷ q))) rows
        (λ item.
          ap (all (passes item)) joined ∙ all-append_eq (passes item) (compile p) (compile q))
