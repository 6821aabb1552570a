-- ===== src/Processors/PadKey.antt =====
-- utils.rs: `pad_key`.
use mathlib.Core.List.{append_assoc}
use kubectl_nvim.Prelude.{
  ℕ, zero, suc, ◌+◌, ◌*◌, ◌/◌, ◌%◌, ◌^◌, ◌-◌, ◌<◌, ◌≡◌, refl, sym, ap, ◌∙◌, Text, text_cmp, [], ◌∷◌,
  ◌++◌, length, arith, then_with, ltb, Bool-cases, inl, inr, true, false, length-append,
}
use Prim.Native.Nat.{compare}
use kubectl_nvim.Processors.Fields.{decimal, digits}

abbrev pub zeros : ℕ → Text
zeros zero = []
zeros (suc n) = b'0' ∷ zeros n

-- `format!("{:0width$}", n)`.
unfoldable pub padded : ℕ → ℕ → Text
padded width n = zeros (width - length (decimal n)) ++ decimal n

unfoldable pub pad_key : ℕ → Text
pad_key n = padded 20 n

-- The last `width` digits.
abbrev fixed : ℕ → ℕ → Text
fixed zero n = []
fixed (suc width) n = fixed width (n / 10) ++ (48 + n % 10) ∷ []

zeros-concat : (w : ℕ) → zeros w ++ b'0' ∷ [] ≡ zeros (suc w)
zeros-concat zero = refl
zeros-concat (suc w) = ap (λ s. b'0' ∷ s) (zeros-concat w)

fixed_zero : (w : ℕ) → fixed w 0 ≡ zeros w
fixed_zero zero = refl
fixed_zero (suc w) = ap (λ s. s ++ b'0' ∷ []) (fixed_zero w) ∙ zeros-concat w

ten : 10 ^ 1 ≡ 10
ten = refl

pow10 : (v : ℕ) → 10 ^ suc v ≡ 10 * 10 ^ v
pow10 v = omega arith

tenth : (v n : ℕ) → n < 10 ^ suc (suc v) → n / 10 < 10 ^ suc v
tenth v n h = omega (arith, pow10 (suc v))

digits_small : (fuel n : ℕ) → ltb n 10 ≡ true → digits (suc fuel) n ≡ (48 + n) ∷ []
digits_small fuel n h = rw (digits, h) refl

digits_large :
    (fuel n : ℕ)
    → ltb n 10 ≡ false
    → digits (suc fuel) n ≡ digits fuel (n / 10) ++ (48 + n % 10) ∷ []
digits_large fuel n h = rw (digits, h) refl

-- Padded digits are the fixed ones.
padded_digits :
    (fuel w n : ℕ)
    → n < fuel
    → n < 10 ^ suc w
    → zeros (suc w - length (digits fuel n)) ++ digits fuel n ≡ fixed (suc w) n
padded_digits zero w n h k = absurd (omega arith)
padded_digits (suc fuel) zero n h k =
    let small : ltb n 10 ≡ true = ground (arith, ten) in
    let digit : n % 10 ≡ n = omega (arith, ten) in rw (digits_small fuel n small, digit) refl
padded_digits (suc fuel) (suc v) n h k = elim (Bool-cases (ltb n 10)) [
  | inl small ↦
      let none_above : n / 10 ≡ 0 = ground arith in
      let digit : n % 10 ≡ n = ground arith in
      let one_less : suc (suc v) - length ((48 + n) ∷ []) ≡ suc v = omega arith in
      rw (digits_small fuel n small, digit, one_less)
        (ap (λ s. s ++ (48 + n) ∷ []) (sym (ap (fixed (suc v)) none_above ∙ fixed_zero (suc v))))
  | inr large ↦
      let rest = padded_digits fuel v (n / 10) (ground arith) (tenth v n k) in
      let ds = digits fuel (n / 10) in
      let last : Text = (48 + n % 10) ∷ [] in
      let longer : length (ds ++ last) ≡ length ds + 1 = length-append ds last in
      let fewer : suc (suc v) - length (ds ++ last) ≡ suc v - length ds = omega (arith, longer) in
      rw (digits_large fuel n large, fewer)
        (sym (append_assoc (zeros (suc v - length ds)) ds last) ∙ ap (λ s. s ++ last) rest)
]

-- Texts of one length are compared before their last bytes are.
text_cmp-last :
    (s t : Text) (x y : ℕ)
    → length s ≡ length t
    → text_cmp (s ++ x ∷ []) (t ++ y ∷ []) ≡ then_with (text_cmp s t) (compare x y)
unfolding text_cmp
text_cmp-last [] [] x y h = ground arith
text_cmp-last [] (b ∷ t) x y h = absurd (omega arith)
text_cmp-last (a ∷ s) [] x y h = absurd (omega arith)
text_cmp-last (a ∷ s) (b ∷ t) x y h = ground (arith, text_cmp-last s t x y)

length-fixed : (w n : ℕ) → length (fixed w n) ≡ w
length-fixed zero n = refl
length-fixed (suc w) n =
    omega (arith, length-append (fixed w (n / 10)) ((48 + n % 10) ∷ []), length-fixed w (n / 10))

digit_order :
    (a b : ℕ)
    → then_with (compare (a / 10) (b / 10)) (compare (48 + a % 10) (48 + b % 10)) ≡ compare a b
digit_order a b = ground arith

text_cmp-fixed :
    (w a b : ℕ) → a < 10 ^ w → b < 10 ^ w → text_cmp (fixed w a) (fixed w b) ≡ compare a b
unfolding text_cmp
text_cmp-fixed zero a b h k = ground arith
text_cmp-fixed (suc w) a b h k =
    text_cmp-last (fixed w (a / 10)) (fixed w (b / 10)) (48 + a % 10) (48 + b % 10)
      (length-fixed w (a / 10) ∙ sym (length-fixed w (b / 10)))
    ∙ ap (λ o. then_with o (compare (48 + a % 10) (48 + b % 10)))
        (text_cmp-fixed w (a / 10) (b / 10) (omega (arith, pow10 w)) (omega (arith, pow10 w)))
    ∙ digit_order a b

pad_key-fixed : (n : ℕ) → n < 10 ^ 20 → pad_key n ≡ fixed 20 n
unfolding pad_key padded
pad_key-fixed n h = padded_digits (suc n) 19 n (omega arith) h

-- Keys of 64 bits have 20 digits each, and the order of the texts is that of the numbers.
pub text_cmp-pad_key :
    (a b : ℕ)
    → a < 2 ^ 64
    → b < 2 ^ 64
    → (text_cmp (pad_key a) (pad_key b) ≡ compare a b) × (length (pad_key a) ≡ 20)
text_cmp-pad_key a b h k =
    let fits : (n : ℕ) → n < 2 ^ 64 → n < 10 ^ 20 = λ n less. omega arith in
    let same = pad_key-fixed a (fits a h) in
    (
      ap (λ s. text_cmp s (pad_key b)) same
          ∙ ap (text_cmp (fixed 20 a)) (pad_key-fixed b (fits b k))
          ∙ text_cmp-fixed 20 a b (fits a h) (fits b k),
      ap length same ∙ length-fixed 20 a,
    )
