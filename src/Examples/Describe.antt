-- ===== src/Examples/Describe.antt =====
-- The theorems on the describe session and on ages, applied to concrete values.
use kubectl_nvim.Prelude.{◌≡◌, refl, ◌+◌, ◌≤◌, ◌<◌, Text, txt, true, some, List, [], ◌∷◌}
use kubectl_nvim.Describe.Poll.{
  Described, content, error, Round, Poll, continues, poll_all, opened, new,
}
use kubectl_nvim.Describe.Changes.{contents, changes, backoff, failures, poll_all-changes}
use kubectl_nvim.Processors.Fields.{pos}
use kubectl_nvim.Processors.Age.{
  Age, time_since_jiff, age_text, seconds, unit, fits, time_since_jiff-reads,
}

abbrev hash : Text → Text
hash text = text

abbrev steady : Described → Round
steady d = record { active = true; result = d; accepted = true }

-- The same text, another one, and two failures.
abbrev rounds : List Round
rounds =
    steady (content (txt "a"))
    ∷ steady (content (txt "b"))
    ∷ steady (error (txt "e"))
    ∷ steady (error (txt "e"))
    ∷ []

poll_all-changes_example :
    (p : Poll) × (q : Poll) × (new hash (content (txt "a")) true ≡ opened p)
    × (poll_all hash rounds p ≡ continues q)
    × (q.sent ≡ txt "a" ∷ changes hash (txt "a") (contents rounds))
    × (q.delay ≡ backoff (failures 0 rounds))
poll_all-changes_example = poll_all-changes hash (txt "a") rounds refl

time_since_jiff-reads_example :
    (a : Age) × (time_since_jiff (some (pos 100000)) ≡ age_text a)
    × (seconds a ≤ 100000)
    × (100000 < seconds a + unit a)
    × (fits a ≡ true)
time_since_jiff-reads_example = time_since_jiff-reads 100000
