-- ===== src/Logs/Toggle.antt =====
-- cmd/log_session.rs: the JSON objects that `toggle_json` finds.
use kubectl_nvim.Prelude.{
  ℕ, zero, suc, ◌+◌, ◌-◌, ◌≡◌, refl, ap, ◌∙◌, Text, Option, none, some, Bool-cases, [], ◌∷◌, ◌++◌,
  Bool, true, false, not, ◌&&◌, length, all, nat_eq, arith, if◌then◌else◌, inl, inr,
}
use kubectl_nvim.Processors.Fields.{pos}
use kubectl_nvim.Logs.Json.{
  Serde, Scan, count, closes, drop, take, slice, rewritten, scan, toggle_json,
}

abbrev pub is_plain : ℕ → Bool
is_plain c = not (nat_eq c b'{') && not (nat_eq c b'}')

abbrev lowered : ℕ → (ℕ → Option ℕ) → Option ℕ
lowered zero f = none
lowered (suc d) f = f d

-- How deep in braces a text ends that starts at depth `d`, unless it closes more than are there.
unfoldable pub level : Text → ℕ → Option ℕ
level [] d = some d
level (c ∷ s) d =
    if nat_eq c b'{'
    then level s (suc d)
    else if nat_eq c b'}'
    then lowered d (level s)
    else level s d

module _ (S : Serde) (input : Text) where
  scan_step :
      (c : ℕ) (rest : Text) (i : ℕ) (s t : Scan)
      → count c i s ≡ t
      → closes c t ≡ false
      → scan S input (c ∷ rest) i s ≡ scan S input rest (i + 1) t
  unfolding scan
  scan_step c rest i s t counted going = rw (counted, going) refl

  count_other :
      (c i : ℕ) (s : Scan) → nat_eq c b'{' ≡ false → nat_eq c b'}' ≡ false → count c i s ≡ s
  count_other c i s h k = rw (h, k) refl

  scan_other :
      (c : ℕ) (rest : Text) (i : ℕ) (s : Scan)
      → nat_eq c b'{' ≡ false
      → nat_eq c b'}' ≡ false
      → scan S input (c ∷ rest) i s ≡ scan S input rest (i + 1) s
  scan_other c rest i s h k = scan_step c rest i s s (count_other c i s h k) (rw k refl)

  plus_suc : (i n : ℕ) → (i + 1) + n ≡ i + suc n
  plus_suc i n = omega arith

  plus_zero : (i : ℕ) → i ≡ i + 0
  plus_zero i = omega arith

  scan_plain :
      (pre rest : Text) (i : ℕ) (s : Scan)
      → all is_plain pre ≡ true
      → scan S input (pre ++ rest) i s ≡ scan S input rest (i + length pre) s
  scan_plain [] rest i s h = ap (λ n. scan S input rest n s) (plus_zero i)
  scan_plain (c ∷ pre) rest i s h =
      scan_other c (pre ++ rest) i s (ground arith) (ground arith)
      ∙ scan_plain pre rest (i + 1) s (ground arith)
      ∙ ap (λ n. scan S input rest n s) (plus_suc i (length pre))

  -- Inside an object the search goes on.
  abbrev within : ℕ → Option ℕ → Scan
  within d start = record { depth = pos (suc d); start = start }

  scan_open :
      (c : ℕ) (rest : Text) (i d : ℕ) (start : Option ℕ)
      → nat_eq c b'{' ≡ true
      → scan S input (c ∷ rest) i (within d start)
        ≡ scan S input rest (i + 1) (within (suc d) start)
  scan_open c rest i d start h =
      scan_step c rest i (within d start) (within (suc d) start) (rw h refl) (ground arith)

  scan_close :
      (c : ℕ) (rest : Text) (i d : ℕ) (start : Option ℕ)
      → nat_eq c b'{' ≡ false
      → nat_eq c b'}' ≡ true
      → scan S input (c ∷ rest) i (within (suc d) start)
        ≡ scan S input rest (i + 1) (within d start)
  scan_close c rest i d start h k =
      scan_step c rest i (within (suc d) start) (within d start) (rw (h, k) refl) (rw k refl)

  -- The step that closes a brace inside an object, given the rest of the search.
  scan_shut :
      (c : ℕ) (body rest : Text) (i d e : ℕ) (start : Option ℕ)
      → nat_eq c b'{' ≡ false
      → nat_eq c b'}' ≡ true
      → lowered d (level body) ≡ some e
      → ((f : ℕ)
          → level body f ≡ some e
          → scan S input (body ++ rest) (i + 1) (within f start)
            ≡ scan S input rest ((i + 1) + length body) (within e start))
      → scan S input (c ∷ (body ++ rest)) i (within d start)
        ≡ scan S input rest ((i + 1) + length body) (within e start)
  scan_shut c body rest i zero e start h k low ih = absurd (ground arith)
  scan_shut c body rest i (suc d) e start h k low ih =
      scan_close c (body ++ rest) i d start h k ∙ ih d low

  scan-level :
      (body rest : Text) (i d e : ℕ) (start : Option ℕ)
      → level body d ≡ some e
      → scan S input (body ++ rest) i (within d start)
        ≡ scan S input rest (i + length body) (within e start)
  unfolding level
  scan-level [] rest i d e start h =
      let same : d ≡ e = cc h in
      rw same (ap (λ n. scan S input rest n (within e start)) (plus_zero i))
  scan-level (c ∷ body) rest i d e start h =
      let moved = ap (λ n. scan S input rest n (within e start)) (plus_suc i (length body)) in
      elim (Bool-cases (nat_eq c b'{')) [
        | inl opens ↦
            scan_open c (body ++ rest) i d start opens
            ∙ scan-level body rest (i + 1) (suc d) e start (rw opens at h)
            ∙ moved
        | inr unopened ↦ elim (Bool-cases (nat_eq c b'}')) [
          | inl shuts ↦
              scan_shut c body rest i d e start unopened shuts (rw (unopened, shuts) at h)
                (λ f g. scan-level body rest (i + 1) f e start g)
              ∙ moved
          | inr other ↦
              scan_other c (body ++ rest) i (within d start) unopened other
              ∙ scan-level body rest (i + 1) d e start (rw (unopened, other) at h)
              ∙ moved
        ]
      ]

  scan_found :
      (suf : Text) (p j : ℕ) (candidate json : Text) (value : S.Value)
      → slice input p j ≡ candidate
      → S.from_str candidate ≡ some value
      → rewritten S candidate value ≡ some json
      → scan S input (b'}' ∷ suf) j (within 0 (some p))
        ≡ some (record { json = json; start_idx = p + 1; end_idx = j + 1 })
  unfolding scan
  scan_found suf p j candidate json value cut parsed written = rw (cut, parsed, written) refl

drop-append : (pre s : Text) → drop (length pre) (pre ++ s) ≡ s
drop-append [] s = refl
drop-append (c ∷ pre) s = drop-append pre s

take-append : (body s : Text) (c : ℕ) → take (length body + 1) (body ++ c ∷ s) ≡ body ++ c ∷ []
take-append [] s c = refl
take-append (b ∷ body) s c =
    let more : suc (length body) + 1 ≡ suc (length body + 1) = omega arith in
    ap (λ n. take n (b ∷ (body ++ c ∷ s))) more ∙ ap (λ r. b ∷ r) (take-append body s c)

-- The object with the text around it.
abbrev pub around : Text → Text → Text → Text
around pre body suf = pre ++ b'{' ∷ (body ++ b'}' ∷ suf)

abbrev pub braced : Text → Text
braced body = b'{' ∷ (body ++ b'}' ∷ [])

slice-braced :
    (pre body suf : Text)
    → slice (around pre body suf) (length pre) (((length pre + 1) + length body)) ≡ braced body
slice-braced pre body suf =
    let size : (length pre + 1) + length body + 1 - length pre ≡ suc (length body + 1) =
      omega arith in
    let object = b'{' ∷ (body ++ b'}' ∷ suf) in
    ap (λ n. take n (drop (length pre) (pre ++ object))) size
    ∙ ap (take (suc (length body + 1))) (drop-append pre object)
    ∙ ap (λ r. b'{' ∷ r) (take-append body suf b'}')

module _ (S : Serde) where
  -- A text without braces before an object whose braces match, which reads as a JSON value: the
  -- object is found, and rewritten, and the indices are those of its first and last byte, from 1.
  pub toggle_json_finds :
      (pre body suf json : Text) (value : S.Value)
      → all is_plain pre ≡ true
      → level body 0 ≡ some 0
      → S.from_str (braced body) ≡ some value
      → rewritten S (braced body) value ≡ some json
      → toggle_json S (around pre body suf)
        ≡ some (record {
          json = json;
          start_idx = length pre + 1;
          end_idx = (length pre + 1) + length body + 1;
        })
  unfolding toggle_json
  toggle_json_finds pre body suf json value plain nested parsed written =
      let input = around pre body suf in
      let p = length pre in
      let object = b'{' ∷ (body ++ b'}' ∷ suf) in
      let outside : Scan = record { depth = pos 0; start = none } in
      scan_plain S input pre object 0 outside plain
      ∙ ap (λ n. scan S input object n outside) (omega arith)
      ∙ scan_step S input b'{' (body ++ b'}' ∷ suf) p outside (within S input 0 (some p)) refl refl
      ∙ scan-level S input body (b'}' ∷ suf) (p + 1) 0 0 (some p) nested
      ∙ scan_found S input suf p ((p + 1) + length body) (braced body) json value
          (slice-braced pre body suf) parsed written
