-- ===== src/Views/Sort.antt =====
-- sort.rs: `sort_dynamic`.
use kubectl_nvim.Prelude.{
  ◌≡◌, ◌↔◌, Text, txt, text_eq, ◌==◌, Option, none, some, unwrap_or, List, [], Memᴰ, Bool, true,
  false, keep, trim, is_empty, to_lowercase, if◌then◌else◌, text_cmp, text_cmp-IsOrder, IsOrder, on,
  on-IsOrder, flipped, flipped-IsOrder, both, both-IsOrder, sort_by, Ascending, IsTied,
  Memᴰ-sort_by, sort_by-Ascending, keep-sort_by,
}
use Prim.Native.Nat.{Ordering}

-- An option of the caller, normalized, or the default if it is missing or blank.
abbrev pub normalized : Text → Option Text → Text
normalized default_value none = default_value
normalized default_value (some s) =
    let t = to_lowercase (trim s) in if is_empty t then default_value else t

module _ {T : Type 0} (get_field_value : T → Text → Option Text) where
  abbrev pub value_of : Text → T → Text
  value_of field row = unwrap_or [] (get_field_value row field)

  -- A comparison of one field, in the order asked for.
  abbrev pub by_field : Text → Text → T → T → Ordering
  by_field order field =
      let ascending = on (value_of field) text_cmp in
      if order == txt "desc" then flipped ascending else ascending

  -- By namespace, ties are broken by name, which always ascends.
  abbrev pub compare_rows : Text → Text → T → T → Ordering
  compare_rows field order =
      if field == txt "namespace"
      then both (by_field order (txt "namespace")) (on (value_of (txt "name")) text_cmp)
      else by_field order field

  unfoldable pub sort_dynamic : Option Text → Option Text → List T → List T
  sort_dynamic sort_by_field sort_order rows =
      sort_by
        (compare_rows (normalized (txt "namespace") sort_by_field)
          (normalized (txt "asc") sort_order))
        rows

  ordered : (order field : Text) → IsOrder (by_field order field)
  ordered order field =
      elim (order == txt "desc")
        as (λ b.
          IsOrder
            (if b then flipped (on (value_of field) text_cmp) else on (value_of field) text_cmp)) [
              | true ↦ flipped-IsOrder (on-IsOrder (value_of field) text_cmp-IsOrder)
              | false ↦ on-IsOrder (value_of field) text_cmp-IsOrder
            ]

  pub compare_rows-IsOrder : (field order : Text) → IsOrder (compare_rows field order)
  compare_rows-IsOrder field order =
      elim (field == txt "namespace")
        as (λ b. IsOrder (
          if b
          then both (by_field order (txt "namespace")) (on (value_of (txt "name")) text_cmp)
          else by_field order field)) [
            | true ↦
                both-IsOrder (ordered order (txt "namespace"))
                  (on-IsOrder (value_of (txt "name")) text_cmp-IsOrder)
            | false ↦ ordered order field
          ]

  -- `sort_dynamic` keeps the rows, puts none before one that is less in the order asked for, and
  -- leaves rows that tie in the order they had.
  pub sort_dynamic_sorts :
      (by order : Option Text) (rows : List T) (p : T → Bool)
      → IsTied (compare_rows (normalized (txt "namespace") by) (normalized (txt "asc") order)) p
      → ((row : T) → Memᴰ row (sort_dynamic by order rows) ↔ Memᴰ row rows)
        × Ascending
            (compare_rows (normalized (txt "namespace") by) (normalized (txt "asc") order))
            (sort_dynamic by order rows)
        × (keep p (sort_dynamic by order rows) ≡ keep p rows)
  unfolding sort_dynamic
  sort_dynamic_sorts by order rows p tied =
      let cmp = compare_rows (normalized (txt "namespace") by) (normalized (txt "asc") order) in
      (
        λ row. Memᴰ-sort_by cmp row rows,
        sort_by-Ascending cmp (compare_rows-IsOrder _ _) rows,
        keep-sort_by cmp p tied rows,
      )
