-- ===== src/Prelude/Strings.antt =====
-- Text as the list of its bytes, with the string operations of Rust's standard library that the
-- program calls. Case mapping and trimming are those of ASCII.
use Prim.Native.Nat.{ℕ, ◌+◌}
use Prim.Native.Char.{code}
use Prim.Native.String.{String}
use mathlib.Core.Path.{◌≡◌, refl, ap, sym, ◌∙◌}
use mathlib.Core.Logic.{◌↔◌}
use mathlib.Core.Bool.{Bool, true, false, ◌&&◌, ◌||◌}
use mathlib.Core.List.{List, [], ◌∷◌, ◌++◌, map, reverse}
use native.Mathlib.Omega.{arith}
use kubectl_nvim.Prelude.Tests.{Eq, leb, nat_eq, nat_eq_iff, if◌then◌else◌}

abbrev pub Text : Type 0
Text = List ℕ

-- The bytes of an ASCII literal.
abbrev pub txt : String → Text
txt String.[] = []
txt (String.◌∷◌ c s) = code c ∷ txt s

unfoldable pub text_beq : Text → Text → Bool
text_beq [] [] = true
text_beq [] (y ∷ ys) = false
text_beq (x ∷ xs) [] = false
text_beq (x ∷ xs) (y ∷ ys) = nat_eq x y && text_beq xs ys

pub text_beq_iff : (s t : Text) → (text_beq s t ≡ true) ↔ (s ≡ t)
unfolding text_beq
text_beq_iff [] [] = (λ _. refl, λ _. refl)
text_beq_iff [] (y ∷ ys) = ground arith
text_beq_iff (x ∷ xs) [] = ground arith
text_beq_iff (x ∷ xs) (y ∷ ys) = ground (arith, text_beq_iff xs ys)

instance abbrev pub text_eq : Eq Text
text_eq = record { beq = text_beq; beq_iff = text_beq_iff }

abbrev pub is_empty {ℓ} : {A : Type ℓ} → List A → Bool
is_empty [] = true
is_empty (x ∷ xs) = false

-- `to_lowercase`, on ASCII.
unfoldable pub lower_byte : ℕ → ℕ
lower_byte c = if leb b'A' c && leb c b'Z' then c + 32 else c

unfoldable pub to_lowercase : Text → Text
unfolding lower_byte
to_lowercase s = map lower_byte s

pub lower_byte_idem : (c : ℕ) → lower_byte (lower_byte c) ≡ lower_byte c
unfolding lower_byte
lower_byte_idem c = ground arith

pub to_lowercase_idem : (s : Text) → to_lowercase (to_lowercase s) ≡ to_lowercase s
unfolding to_lowercase
to_lowercase_idem [] = refl
to_lowercase_idem (c ∷ s) = cc (lower_byte_idem c, to_lowercase_idem s)

-- `eq_ignore_ascii_case`.
unfoldable pub eq_ignore_ascii_case : Text → Text → Bool
unfolding to_lowercase text_beq
eq_ignore_ascii_case s t = text_beq (to_lowercase s) (to_lowercase t)

-- `s.starts_with(prefix)`, the prefix first.
unfoldable pub starts_with : Text → Text → Bool
starts_with [] s = true
starts_with (p ∷ ps) [] = false
starts_with (p ∷ ps) (c ∷ s) = nat_eq p c && starts_with ps s

pub starts_with_iff : (p s : Text) → starts_with p s ≡ true → (r : Text) × (s ≡ p ++ r)
unfolding starts_with
starts_with_iff [] s h = (s, refl)
starts_with_iff (p ∷ ps) [] h = ground arith
starts_with_iff (p ∷ ps) (c ∷ s) h =
    let (r, e) = starts_with_iff ps s (ground arith) in (r, ground arith)

pub starts_with-append : (p r : Text) → starts_with p (p ++ r) ≡ true
unfolding starts_with
starts_with-append [] r = refl
starts_with-append (p ∷ ps) r = ground (arith, starts_with-append ps r)

-- `s.ends_with(suffix)`, the suffix first.
unfoldable pub ends_with : Text → Text → Bool
unfolding starts_with
ends_with p s = starts_with (reverse p) (reverse s)

-- `s.contains(pat)`, the pattern first.
unfoldable pub contains : Text → Text → Bool
unfolding starts_with
contains p [] = starts_with p []
contains p (c ∷ s) = starts_with p (c ∷ s) || contains p s

-- `trim`: space, tab, newline, vertical tab, form feed, carriage return.
unfoldable pub is_space : ℕ → Bool
is_space c = nat_eq c 32 || (leb 9 c && leb c 13)

unfoldable pub trim_start : Text → Text
unfolding is_space
trim_start [] = []
trim_start (c ∷ s) = let rest = trim_start s in if is_space c then rest else c ∷ s

unfoldable pub trim : Text → Text
unfolding trim_start
trim s = reverse (trim_start (reverse (trim_start s)))

abbrev push_byte : Bool → ℕ → List Text → List Text
push_byte true c pieces = [] ∷ pieces
push_byte false c [] = (c ∷ []) ∷ []
push_byte false c (piece ∷ pieces) = (c ∷ piece) ∷ pieces

-- `split(sep)`: one piece more than there are separators. The piece being read comes first.
unfoldable pub split : ℕ → Text → List Text
split sep [] = [] ∷ []
split sep (c ∷ s) = push_byte (nat_eq c sep) c (split sep s)

split_cons : (sep : ℕ) (s : Text) → (x : Text) × (xs : List Text) × (split sep s ≡ x ∷ xs)
unfolding split
split_cons sep [] = ([], [], refl)
split_cons sep (c ∷ s) =
    let (x, xs, e) = split_cons sep s in
    elim (nat_eq c sep)
      as (λ b. (y : Text) × (ys : List Text) × (push_byte b c (split sep s) ≡ y ∷ ys)) [
        | true ↦ ([], split sep s, refl)
        | false ↦ (c ∷ x, xs, ap (push_byte false c) e)
      ]

push_byte-append :
    (b : Bool) (c : ℕ) (x : Text) (xs ys : List Text)
    → push_byte b c (x ∷ (xs ++ ys)) ≡ push_byte b c (x ∷ xs) ++ ys
push_byte-append true c x xs ys = refl
push_byte-append false c x xs ys = refl

pub split-join : (sep : ℕ) (s t : Text) → split sep (s ++ sep ∷ t) ≡ split sep s ++ split sep t
unfolding split
split-join sep [] t = ap (λ b. push_byte b sep (split sep t)) ((nat_eq_iff sep sep).1 refl)
split-join sep (c ∷ s) t =
    let (x, xs, e) = split_cons sep s in
    ap (push_byte (nat_eq c sep) c) (split-join sep s t)
    ∙ ap (λ ps. push_byte (nat_eq c sep) c (ps ++ split sep t)) e
    ∙ push_byte-append (nat_eq c sep) c x xs (split sep t)
    ∙ ap (λ ps. push_byte (nat_eq c sep) c ps ++ split sep t) (sym e)
