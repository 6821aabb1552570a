-- ===== src/Examples/Processing.antt =====
-- The theorems on the rows of a view, the cache and the sort keys, applied to concrete values.
use mathlib.Core.List.Memᴰ
use mathlib.Core.Path.{subst}
use Prim.Native.Nat.{compare}
use kubectl_nvim.Prelude.{
  ◌≡◌, ◌↔◌, refl, sym, inl, inr, ℕ, Text, txt, true, Option, none, some, unwrap_or, List, [], ◌∷◌,
  Memᴰ, Ascending, text_cmp, length, arith,
}
use kubectl_nvim.Processors.PadKey.{pad_key, text_cmp-pad_key}
use kubectl_nvim.Processors.Items.{Values, DynamicObject, FilterParams}
use kubectl_nvim.Processors.Cache.{
  CacheCall, deserialize, clear, empty_cache, cached_answers, fresh_answers, IsAt,
  cached_answers-fresh_answers,
}
use kubectl_nvim.Processors.Process.{
  Accessors, process, is_wanted, is_shown, row_order, process_lists,
}
use kubectl_nvim.Examples.Manifests.{Value, string, member, as_str}

text_cmp-pad_key_example :
    (text_cmp (pad_key 9) (pad_key 10) ≡ compare 9 10) × (length (pad_key 9) ≡ 20)
text_cmp-pad_key_example = text_cmp-pad_key 9 10 (omega arith) (omega arith)

abbrev V : Values
V = record { Value = Value; get = member; as_str = as_str }

abbrev object : Text → DynamicObject V
object name = record {
  metadata = record {
    name = some name;
    namespace = some (txt "d");
    labels = some ((txt "app", name) ∷ []);
    owner_references = none;
    resource_version = some name;
  };
  value = string name;
}

-- The row is the name.
abbrev build : DynamicObject V → Option Text
build obj = some (unwrap_or [] obj.metadata.name)

abbrev decode : ℕ → DynamicObject V → Option Text
decode tag obj = build obj

abbrev a : DynamicObject V
a = object (txt "a")

abbrev b : DynamicObject V
b = object (txt "b")

abbrev object_at : ℕ → Text → DynamicObject V
object_at ptr version = object version

-- One object twice, as two types, and another at its address.
abbrev calls : List (CacheCall V Text decode)
calls = deserialize 0 7 a ∷ deserialize 1 7 a ∷ clear ∷ deserialize 0 7 b ∷ []

abbrev At : CacheCall V Text decode → Type 0
At = IsAt V Text decode object_at

calls-At : (call : CacheCall V Text decode) → Memᴰ call calls → At call
calls-At call m = elim (Memᴰ.cases_cons m) [
  | inl e ↦ subst At (sym e) refl
  | inr m1 ↦ elim (Memᴰ.cases_cons m1) [
    | inl e ↦ subst At (sym e) refl
    | inr m2 ↦ elim (Memᴰ.cases_cons m2) [
      | inl e ↦ subst At (sym e) refl
      | inr m3 ↦ subst At (sym (Memᴰ.eq_of_singleton m3)) refl
    ]
  ]
]

cached_answers-fresh_answers_example :
    cached_answers V Text decode calls (empty_cache V Text decode)
    ≡ fresh_answers V Text decode calls
cached_answers-fresh_answers_example =
    cached_answers-fresh_answers V Text decode object_at calls calls-At

abbrev accessors : Accessors Text
accessors = record {
  filterable_fields = txt "name" ∷ [];
  sort_field = λ row field. some row;
  filter_field = λ row field. some row;
}

abbrev params : FilterParams
params = record {
  sort_by = some (txt "name");
  sort_order = none;
  filter = some (txt "!c");
  filter_label = some (txt "app=a" ∷ []);
  filter_key = some (txt "metadata.name=a");
}

process_lists_example :
    (rows : List Text) × (process V accessors build (a ∷ b ∷ []) params ≡ some rows)
    × ((row : Text)
        → Memᴰ row rows ↔ (
            (obj : DynamicObject V) × Memᴰ obj (a ∷ b ∷ [])
            × (is_wanted V accessors build params obj ≡ true)
            × (build obj ≡ some row)
            × (is_shown V accessors build params.filter row ≡ true)))
    × Ascending (row_order V accessors build params) rows
process_lists_example =
    process_lists V accessors build (a ∷ b ∷ []) params
      (λ obj m w. (unwrap_or [] obj.metadata.name, refl))
