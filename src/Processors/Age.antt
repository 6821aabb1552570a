-- ===== src/Processors/Age.antt =====
-- utils.rs: `time_since_jiff`, where `none` is a difference that cannot be computed.
use kubectl_nvim.Prelude.{
  ℕ, zero, suc, ◌+◌, ◌*◌, ◌/◌, ◌%◌, ◌≤◌, ◌<◌, ◌≡◌, refl, Text, txt, Bool, true, Bool-cases, inl,
  inr, Option, none, some, ◌++◌, ◌||◌, ltb, arith, if◌then◌else◌,
}
use kubectl_nvim.Processors.Fields.{ℤ, pos, negsuc, decimal, int_text}

-- What is shown of a time.
pub data Age : Type 0 where
  years_days days_hours hours_mins mins_secs : ℕ → ℕ → Age
  only_days only_secs : ℕ → Age

-- The branches, in order, for a time that is not negative.
unfoldable pub age_of : ℕ → Age
age_of total_secs =
    let days = total_secs / 86400 in
    let hours = (total_secs % 86400) / 3600 in
    let mins = (total_secs % 3600) / 60 in
    let secs = total_secs % 60 in
    if ltb 365 days
    then years_days (days / 365) (days % 365)
    else if ltb 7 days
    then only_days days
    else if ltb 0 days || ltb 23 hours
    then days_hours days (hours % 24)
    else if ltb 0 hours
    then hours_mins hours (mins % 60)
    else if ltb 0 mins
    then mins_secs mins (secs % 60)
    else only_secs secs

abbrev pub in_units : ℕ → Text → ℕ → Text → Text
in_units a u b v = decimal a ++ u ++ decimal b ++ v

unfoldable pub age_text : Age → Text
age_text (years_days y d) = in_units y (txt "y") d (txt "d")
age_text (days_hours d h) = in_units d (txt "d") h (txt "h")
age_text (hours_mins h m) = in_units h (txt "h") m (txt "m")
age_text (mins_secs m s) = in_units m (txt "m") s (txt "s")
age_text (only_days d) = decimal d ++ txt "d"
age_text (only_secs s) = decimal s ++ txt "s"

-- For a time that lies ahead no branch but the last holds, and the remainder has the sign of the time.
abbrev pub ahead : ℕ → Text
ahead zero = txt "0s"
ahead (suc n) = int_text (negsuc n) ++ txt "s"

unfoldable pub time_since_jiff : Option ℤ → Text
time_since_jiff none = txt "unknown"
time_since_jiff (some (pos n)) = age_text (age_of n)
time_since_jiff (some (negsuc n)) = ahead (suc n % 60)

-- The time that a reader makes of it, in seconds, and the smallest unit shown.
abbrev pub seconds : Age → ℕ
seconds (years_days y d) = y * 31536000 + d * 86400
seconds (days_hours d h) = d * 86400 + h * 3600
seconds (hours_mins h m) = h * 3600 + m * 60
seconds (mins_secs m s) = m * 60 + s
seconds (only_days d) = d * 86400
seconds (only_secs s) = s

abbrev pub unit : Age → ℕ
unit (years_days y d) = 86400
unit (days_hours d h) = 3600
unit (hours_mins h m) = 60
unit (mins_secs m s) = 1
unit (only_days d) = 86400
unit (only_secs s) = 1

-- The lesser of two units shown stays below the greater.
abbrev pub fits : Age → Bool
fits (years_days y d) = ltb d 365
fits (days_hours d h) = ltb h 24
fits (hours_mins h m) = ltb m 60
fits (mins_secs m s) = ltb s 60
fits (only_days d) = true
fits (only_secs s) = ltb s 60

abbrev Reads : ℕ → Age → Type 0
Reads n a = (seconds a ≤ n) × (n < seconds a + unit a) × (fits a ≡ true)

years_read : (n : ℕ) → Reads n (years_days (n / 86400 / 365) (n / 86400 % 365))
years_read n = (omega arith, omega arith, ground arith)

days_read : (n : ℕ) → Reads n (only_days (n / 86400))
days_read n = (omega arith, omega arith, refl)

hours_read : (n : ℕ) → Reads n (days_hours (n / 86400) (n % 86400 / 3600 % 24))
hours_read n = (omega arith, omega arith, ground arith)

mins_read : (n : ℕ) → (n / 86400 ≡ 0) → Reads n (hours_mins (n % 86400 / 3600) (n % 3600 / 60 % 60))
mins_read n h = (omega arith, omega arith, ground arith)

secs_read :
    (n : ℕ)
    → (n / 86400 ≡ 0)
    → (n % 86400 / 3600 ≡ 0)
    → Reads n (mins_secs (n % 3600 / 60) (n % 60 % 60))
secs_read n h k = (omega arith, omega arith, ground arith)

last_read :
    (n : ℕ)
    → (n / 86400 ≡ 0)
    → (n % 86400 / 3600 ≡ 0)
    → (n % 3600 / 60 ≡ 0)
    → Reads n (only_secs (n % 60))
last_read n h k l = (omega arith, omega arith, ground arith)

age_read : (n : ℕ) → Reads n (age_of n)
unfolding age_of
age_read n = elim (Bool-cases (ltb 365 (n / 86400))) [
  | inl long ↦ rw long (years_read n)
  | inr short ↦ elim (Bool-cases (ltb 7 (n / 86400))) [
    | inl long ↦ rw (short, long) (days_read n)
    | inr week ↦ elim (Bool-cases (ltb 0 (n / 86400) || ltb 23 (n % 86400 / 3600))) [
      | inl long ↦ rw (short, week, long) (hours_read n)
      | inr day ↦ elim (Bool-cases (ltb 0 (n % 86400 / 3600))) [
        | inl long ↦ rw (short, week, day, long) (mins_read n (ground arith))
        | inr hour ↦ elim (Bool-cases (ltb 0 (n % 3600 / 60))) [
          | inl long ↦ rw (short, week, day, hour, long) (secs_read n (ground arith) (ground arith))
          | inr last ↦
              rw (short, week, day, hour, last)
                (last_read n (ground arith) (ground arith) (ground arith))
        ]
      ]
    ]
  ]
]

-- The text of a time that is not negative is that of an age whose second unit, if there is one, stays
-- below the first: read back in seconds it is at most the time, and less than one of the smallest
-- unit shown short of it.
pub time_since_jiff-reads :
    (n : ℕ)
    → (a : Age) × (time_since_jiff (some (pos n)) ≡ age_text a)
      × (seconds a ≤ n)
      × (n < seconds a + unit a)
      × (fits a ≡ true)
unfolding time_since_jiff
time_since_jiff-reads n = let (least, most, fit) = age_read n in (age_of n, refl, least, most, fit)
