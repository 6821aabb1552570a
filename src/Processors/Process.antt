-- ===== src/Processors/Process.antt =====
-- processors/processor.rs: `process`, the rows of a view. A row is built from an object by the
-- processor of the kind; `none` is an error, whose text is left out.
use kubectl_nvim.Prelude.{
  ◌≡◌, ◌↔◌, refl, Text, txt, Bool, true, false, ◌&&◌, Option, none, some, List, Memᴰ, Memᴰ-keep,
  all, keep, arith, Ascending, keep-Ascending,
}
use Prim.Native.Nat.{Ordering}
use kubectl_nvim.Lineage.Tree.Link.{◌>>=◌}
use kubectl_nvim.Lineage.Listing.Collect.{collect, collect_total}
use kubectl_nvim.Views.Sort.{sort_dynamic, sort_dynamic_sorts, compare_rows, normalized}
use kubectl_nvim.Views.Filter.{filter_dynamic, compile, passes}
use kubectl_nvim.Processors.Items.{
  Values, DynamicObject, FilterParams, parse_label_filters, parse_key_filters, labels_match,
  key_filters_match,
}

-- The two accessors of a processor: for sorting and for filtering.
pub record Accessors (Row : Type 0) : Type 0 where
  pub filterable_fields : List Text
  pub sort_field : Row → Text → Option Text
  pub filter_field : Row → Text → Option Text

module _ (J : Values) {Row : Type 0} (a : Accessors Row)
    (build : DynamicObject J → Option Row) where
  abbrev pub is_wanted : FilterParams → DynamicObject J → Bool
  is_wanted p obj =
      labels_match J (parse_label_filters p) obj && key_filters_match J (parse_key_filters p) obj

  abbrev pub filtered : Option Text → List Row → List Row
  filtered none rows = rows
  filtered (some query) rows = filter_dynamic a.filterable_fields a.filter_field rows query

  unfoldable pub process : List (DynamicObject J) → FilterParams → Option (List Row)
  process items p =
      collect build (
        keep (key_filters_match J (parse_key_filters p))
          (keep (labels_match J (parse_label_filters p)) items))
      >>= λ rows. some (filtered p.filter (sort_dynamic a.sort_field p.sort_by p.sort_order rows))

  -- A row passes the text that is filtered by, if there is one.
  abbrev pub is_shown : Option Text → Row → Bool
  is_shown none row = true
  is_shown (some query) row = all (passes a.filterable_fields a.filter_field row) (compile query)

  filtered_iff :
      (query : Option Text) (rows : List Row) (row : Row)
      → Memᴰ row (filtered query rows) ↔ (Memᴰ row rows × (is_shown query row ≡ true))
  unfolding filter_dynamic
  filtered_iff none rows row = (λ m. (m, refl), λ h. h.0)
  filtered_iff (some query) rows row = Memᴰ-keep (is_shown (some query)) row rows

  abbrev pub row_order : FilterParams → Row → Row → Ordering
  row_order p =
      compare_rows a.sort_field (normalized (txt "namespace") p.sort_by)
        (normalized (txt "asc") p.sort_order)

  filtered-Ascending :
      (query : Option Text) (cmp : Row → Row → Ordering) (rows : List Row)
      → Ascending cmp rows
      → Ascending cmp (filtered query rows)
  unfolding filter_dynamic
  filtered-Ascending none cmp rows s = s
  filtered-Ascending (some query) cmp rows s = keep-Ascending cmp (is_shown (some query)) rows s

  chosen_iff :
      (q k : DynamicObject J → Bool) (obj : DynamicObject J) (items : List (DynamicObject J))
      → Memᴰ obj (keep k (keep q items)) ↔ (Memᴰ obj items × ((q obj && k obj) ≡ true))
  chosen_iff q k obj items = ground (arith, Memᴰ-keep k obj (keep q items), Memᴰ-keep q obj items)

  -- If a row can be built of each object that meets the label and the key filters: the rows are those
  -- of these objects that pass the text filter, and no others, in the order asked for.
  pub process_lists :
      (items : List (DynamicObject J)) (p : FilterParams)
      → ((obj : DynamicObject J)
          → Memᴰ obj items
          → is_wanted p obj ≡ true
          → (row : Row) × (build obj ≡ some row))
      → (rows : List Row) × (process items p ≡ some rows)
        × ((row : Row)
            → Memᴰ row rows ↔ (
                (obj : DynamicObject J) × Memᴰ obj items
                × (is_wanted p obj ≡ true)
                × (build obj ≡ some row)
                × (is_shown p.filter row ≡ true)))
        × Ascending (row_order p) rows
  unfolding process
  process_lists items p built =
      let labelled = labels_match J (parse_label_filters p) in
      let keyed = key_filters_match J (parse_key_filters p) in
      let chosen = keep keyed (keep labelled items) in
      let mem_chosen : (obj : DynamicObject J)
          → Memᴰ obj chosen ↔ (Memᴰ obj items × (is_wanted p obj ≡ true)) =
        λ obj. chosen_iff labelled keyed obj items in
      let (rows, e, told) =
        collect_total build chosen (λ obj m. let (n, w) = (mem_chosen obj).0 m in built obj n w) in
      let (same, sorted, _) =
        sort_dynamic_sorts a.sort_field p.sort_by p.sort_order rows (λ row. false)
          (λ x y h. absurd (ground arith)) in
      let listed = sort_dynamic a.sort_field p.sort_by p.sort_order rows in
      (
        filtered p.filter listed,
        rw e refl,
        λ row.
            let shown = filtered_iff p.filter listed row in
            (
              λ m.
                  let (n, pass) = shown.0 m in
                  let (obj, at, made) = (told row).0 ((same row).0 n) in
                  let (inside, wanted) = (mem_chosen obj).0 at in (obj, inside, wanted, made, pass),
              λ (obj, inside, wanted, made, pass). shown.1 (
                (same row).1 ((told row).1 (obj, (mem_chosen obj).1 (inside, wanted), made)),
                pass,
              ),
            ),
        filtered-Ascending p.filter (row_order p) listed sorted,
      )
