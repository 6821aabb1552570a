-- ===== src/Events/Color.antt =====
-- events.rs: `capitalize` and `color_status`.
use kubectl_nvim.Prelude.{
  ℕ, ◌-◌, ◌≡◌, refl, Bool, true, ◌&&◌, Text, text_eq, text_beq, text_beq_iff, ◌==◌, List, [], ◌∷◌,
  Memᴰ, any, all, all_of_Memᴰ, leb, to_lowercase, to_lowercase_idem, lower_byte, if◌then◌else◌,
  is_empty, arith,
}
use kubectl_nvim.Events.Statuses.{error_statuses, warning_statuses, success_statuses}
use kubectl_nvim.Events.Symbols

-- `to_uppercase`, on ASCII.
unfoldable pub upper_byte : ℕ → ℕ
upper_byte c = if leb b'a' c && leb c b'z' then c - 32 else c

unfoldable pub capitalize : Text → Text
capitalize [] = []
capitalize (c ∷ cs) = upper_byte c ∷ to_lowercase cs

abbrev pub is_listed : Text → List Text → Bool
is_listed s set = any (λ t. s == t) set

abbrev pub color_of_capitalized : Text → Text
color_of_capitalized capitalized =
    if is_listed capitalized error_statuses
    then Symbols.error
    else if is_listed capitalized warning_statuses
    then Symbols.warning
    else if is_listed capitalized success_statuses
    then Symbols.success
    else []

unfoldable pub color_status : Text → Text
color_status status = if is_empty status then [] else color_of_capitalized (capitalize status)

upper-lower_byte : (c : ℕ) → upper_byte (lower_byte c) ≡ upper_byte c
unfolding upper_byte lower_byte
upper-lower_byte c = ground arith

-- The colour of a status does not depend on the case of its letters.
pub color_status-to_lowercase :
    (status : Text) → color_status (to_lowercase status) ≡ color_status status
unfolding color_status capitalize to_lowercase
color_status-to_lowercase [] = refl
color_status-to_lowercase (c ∷ cs) = rw (upper-lower_byte c, to_lowercase_idem cs) refl

errors_coloured : all (λ s. color_status s == Symbols.error) error_statuses ≡ true
unfolding color_status capitalize to_lowercase lower_byte upper_byte text_beq
errors_coloured = refl

warnings_coloured : all (λ s. color_status s == Symbols.warning) warning_statuses ≡ true
unfolding color_status capitalize to_lowercase lower_byte upper_byte text_beq
warnings_coloured = refl

successes_coloured : all (λ s. color_status s == Symbols.success) success_statuses ≡ true
unfolding color_status capitalize to_lowercase lower_byte upper_byte text_beq
successes_coloured = refl

-- A status of one of the tables, with the colour of the table.
pub data Listed (s : Text) : Text → Type 0 where
  error_status : Memᴰ s error_statuses → Listed s Symbols.error
  warning_status : Memᴰ s warning_statuses → Listed s Symbols.warning
  success_status : Memᴰ s success_statuses → Listed s Symbols.success

-- Each status of a table has the colour of that table: no entry is listed twice with different
-- colours, and each is written the way `capitalize` writes it.
pub color_status-Listed : (s colour : Text) → Listed s colour → color_status s ≡ colour
color_status-Listed s _ (error_status m) =
    (text_beq_iff (color_status s) Symbols.error).0
      (all_of_Memᴰ (λ x. color_status x == Symbols.error) s error_statuses errors_coloured m)
color_status-Listed s _ (warning_status m) =
    (text_beq_iff (color_status s) Symbols.warning).0
      (all_of_Memᴰ (λ x. color_status x == Symbols.warning) s warning_statuses warnings_coloured m)
color_status-Listed s _ (success_status m) =
    (text_beq_iff (color_status s) Symbols.success).0
      (all_of_Memᴰ (λ x. color_status x == Symbols.success) s success_statuses successes_coloured m)
