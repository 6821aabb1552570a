-- ===== src/Processors/Fields.antt =====
-- utils.rs: `FieldValue`, and the text of numbers.
use kubectl_nvim.Prelude.{
  ℕ, zero, suc, ◌+◌, ◌/◌, ◌%◌, Text, Option, Bool, true, false, [], ◌∷◌, ◌++◌, ltb,
}

pub record FieldValue : Type 0 where
  pub value : Text
  pub symbol : Option Text
  pub sort_by : Option ℕ
  pub hint : Option Text

-- The digits of `n`, where `fuel` is more than their number.
abbrev pub digits : ℕ → ℕ → Text
digits zero n = []
digits (suc fuel) n = elim (ltb n 10) [
  | true ↦ (48 + n) ∷ []
  | false ↦ digits fuel (n / 10) ++ (48 + n % 10) ∷ []
]

abbrev pub decimal : ℕ → Text
decimal n = digits (suc n) n

-- A signed machine integer.
pub data ℤ : Type 0 where
  pos : ℕ → ℤ
  negsuc : ℕ → ℤ

abbrev pub int_text : ℤ → Text
int_text (pos n) = decimal n
int_text (negsuc n) = b'-' ∷ decimal (suc n)

abbrev pub is_zero : ℤ → Bool
is_zero (pos zero) = true
is_zero (pos (suc n)) = false
is_zero (negsuc n) = false
