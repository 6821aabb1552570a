-- ===== src/Logs/Json.antt =====
-- cmd/log_session.rs: `toggle_json`. Its `depth` is an `i32`, here an integer without bounds: the
-- two agree on texts of fewer than 2^31 bytes. serde_json is a parameter.
use kubectl_nvim.Prelude.{
  ℕ, zero, suc, ◌+◌, ◌-◌, Text, Option, none, some, [], ◌∷◌, Bool, true, false, ◌&&◌, nat_eq,
  if◌then◌else◌, any,
}
use kubectl_nvim.Processors.Fields.{ℤ, pos, negsuc, is_zero}

-- serde_json: reading a value, and writing it on one line or indented.
pub record Serde : Type 1 where
  pub Value : Type 0
  pub from_str : Text → Option Value
  pub to_string : Value → Option Text
  pub to_string_pretty : Value → Option Text

pub record ToggleJsonResult : Type 0 where
  pub json : Text
  pub start_idx : ℕ
  pub end_idx : ℕ

pub record Scan : Type 0 where
  pub depth : ℤ
  pub start : Option ℕ

abbrev pub inc : ℤ → ℤ
inc (pos n) = pos (suc n)
inc (negsuc zero) = pos zero
inc (negsuc (suc n)) = negsuc n

abbrev pub dec : ℤ → ℤ
dec (pos zero) = negsuc zero
dec (pos (suc n)) = pos n
dec (negsuc n) = negsuc (suc n)

abbrev pub drop : ℕ → Text → Text
drop zero s = s
drop (suc n) [] = []
drop (suc n) (c ∷ s) = drop n s

abbrev pub take : ℕ → Text → Text
take zero s = []
take (suc n) [] = []
take (suc n) (c ∷ s) = c ∷ take n s

-- `input[from..=to]`.
abbrev pub slice : Text → ℕ → ℕ → Text
slice input from to = take (to + 1 - from) (drop from input)

-- The arms of the `match`, as far as they count.
abbrev pub count : ℕ → ℕ → Scan → Scan
count byte i s =
    if nat_eq byte b'{'
    then record { depth = inc s.depth; start = if is_zero s.depth then some i else s.start }
    else if nat_eq byte b'}'
    then record s { depth = dec s.depth }
    else s

abbrev pub closes : ℕ → Scan → Bool
closes byte s = nat_eq byte b'}' && is_zero s.depth

abbrev pub forget : Bool → Scan → Scan
forget true s = record s { start = none }
forget false s = s

abbrev pub has_newline : Text → Bool
has_newline s = any (nat_eq 10) s

module _ (S : Serde) where
  abbrev pub rewritten : Text → S.Value → Option Text
  rewritten candidate value =
      if has_newline candidate then S.to_string value else S.to_string_pretty value

  abbrev pub result : Option Text → ℕ → ℕ → Option ToggleJsonResult
  result none start_pos i = none
  result (some json) start_pos i =
      some (record { json = json; start_idx = start_pos + 1; end_idx = i + 1 })

  -- `none` when the candidate is no JSON, and `some` of what the function returns when it is.
  abbrev pub answer : Text → ℕ → ℕ → Option S.Value → Option (Option ToggleJsonResult)
  answer candidate start_pos i none = none
  answer candidate start_pos i (some value) = some (result (rewritten candidate value) start_pos i)

  abbrev pub attempt : Text → Option ℕ → ℕ → Option (Option ToggleJsonResult)
  attempt input none i = none
  attempt input (some start_pos) i =
      let candidate = slice input start_pos i in answer candidate start_pos i (S.from_str candidate)

  -- A pair of braces that is now closed may end the search.
  abbrev pub settle :
      Bool → Option (Option ToggleJsonResult) → Option ToggleJsonResult → Option ToggleJsonResult
  settle false tried later = later
  settle true none later = later
  settle true (some r) later = r

  -- The loop, over the bytes from position `i` on.
  unfoldable pub scan : Text → Text → ℕ → Scan → Option ToggleJsonResult
  scan input [] i s = none
  scan input (byte ∷ rest) i s =
      let t = count byte i s in
      let closed = closes byte t in
      let later = scan input rest (i + 1) (forget closed t) in
      settle closed (attempt input t.start i) later

  unfoldable pub toggle_json : Text → Option ToggleJsonResult
  toggle_json input = scan input input 0 (record { depth = pos 0; start = none })
