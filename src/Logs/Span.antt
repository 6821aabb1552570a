-- ===== src/Logs/Span.antt =====
-- cmd/log_session.rs: the text that `toggle_json` answers for.
use mathlib.Core.Path.{subst}
use kubectl_nvim.Prelude.{
  ◌≢◌, ◌⊎◌, ap, ℕ, suc, ◌+◌, ◌≤◌, ◌<◌, ◌≡◌, refl, inl, inr, Text, Option, none, some, [], ◌∷◌, Bool,
  true, false, length, arith,
}
use kubectl_nvim.Logs.Json.{
  Serde, ToggleJsonResult, Scan, count, closes, slice, rewritten, result, answer, attempt, settle,
  forget, scan, toggle_json,
}

none≢some : {A : Type 0} {a : A} → none ≢ some a
none≢some h = ground arith

module _ (S : Serde) (input : Text) where
  -- The result stands for a value read from the text between its indices, which lie in the text.
  pub record Spans (r : ToggleJsonResult) : Type 0 where
    pub from : ℕ
    pub to : ℕ
    pub value : S.Value
    pub start_idx_eq : r.start_idx ≡ from + 1
    pub end_idx_eq : r.end_idx ≡ to + 1
    pub ordered : from ≤ to
    pub inside : to < length input
    pub parsed : S.from_str (slice input from to) ≡ some value
    pub written : rewritten S (slice input from to) value ≡ some r.json

  abbrev Behind : ℕ → Option ℕ → Type 0
  Behind i start = (p : ℕ) → start ≡ some p → p < i

  result-Spans :
      (o : Option Text) (p i : ℕ) (value : S.Value) (r : ToggleJsonResult)
      → p ≤ i
      → i < length input
      → S.from_str (slice input p i) ≡ some value
      → rewritten S (slice input p i) value ≡ o
      → result S o p i ≡ some r
      → Spans r
  result-Spans none p i value r h k e w f = absurd (ground arith)
  result-Spans (some json) p i value r h k e w f =
      let made : ToggleJsonResult = record { json = json; start_idx = p + 1; end_idx = i + 1 } in
      let same : made ≡ r = cc f in
      subst Spans same (record {
        from = p;
        to = i;
        value = value;
        start_idx_eq = refl;
        end_idx_eq = refl;
        ordered = h;
        inside = k;
        parsed = e;
        written = w;
      })

  answer-Spans :
      (o : Option S.Value) (p i : ℕ) (r : ToggleJsonResult)
      → p ≤ i
      → i < length input
      → S.from_str (slice input p i) ≡ o
      → answer S (slice input p i) p i o ≡ some (some r)
      → Spans r
  answer-Spans none p i r h k e f = absurd (none≢some f)
  answer-Spans (some value) p i r h k e f =
      result-Spans (rewritten S (slice input p i) value) p i value r h k e refl (cc f)

  attempt-Spans :
      (start : Option ℕ) (i : ℕ) (r : ToggleJsonResult)
      → Behind (suc i) start
      → i < length input
      → attempt S input start i ≡ some (some r)
      → Spans r
  attempt-Spans none i r b k h = absurd (none≢some h)
  attempt-Spans (some p) i r b k h =
      let before = b p refl in
      answer-Spans (S.from_str (slice input p i)) p i r (omega arith) k refl h

  count-Behind : (byte i : ℕ) (s : Scan) → Behind i s.start → Behind (suc i) (count byte i s).start
  count-Behind byte i s b p h = ground (arith, b p)

  forget-Behind :
      (closed : Bool) (i : ℕ) (t : Scan) → Behind i t.start → Behind i (forget closed t).start
  forget-Behind true i t b p h = absurd (none≢some h)
  forget-Behind false i t b p h = b p h

  settle_cases :
      (closed : Bool) (tried : Option (Option ToggleJsonResult)) (later : Option ToggleJsonResult)
      (r : ToggleJsonResult)
      → settle S closed tried later ≡ some r
      → (tried ≡ some (some r)) ⊎ (later ≡ some r)
  settle_cases false tried later r h = inr h
  settle_cases true none later r h = inr h
  settle_cases true (some o) later r h = inl (ap some h)

  scan-Spans :
      (rest : Text) (i : ℕ) (s : Scan) (r : ToggleJsonResult)
      → i + length rest ≡ length input
      → Behind i s.start
      → scan S input rest i s ≡ some r
      → Spans r
  unfolding scan
  scan-Spans [] i s r n b h = absurd (none≢some h)
  scan-Spans (byte ∷ rest) i s r n b h =
      let t = count byte i s in
      let closed = closes byte t in
      let b2 = count-Behind byte i s b in
      let plus_one : i + 1 ≡ suc i = omega arith in
      let later =
        scan-Spans rest (i + 1) (forget closed t) r (omega arith)
          (rw plus_one (forget-Behind closed (suc i) t b2)) in
      elim (settle_cases closed (attempt S input t.start i)
        (scan S input rest (i + 1) (forget closed t)) r h) [
          | inl done ↦ attempt-Spans t.start i r b2 (omega arith) done
          | inr more ↦ later more
        ]

  -- What `toggle_json` answers stands for a JSON value: the text between the two indices, which lie
  -- in the input in this order, reads as the value, and the answer is the value written on one line
  -- if that text has a line break, and indented if it has none.
  pub toggle_json-Spans : (r : ToggleJsonResult) → toggle_json S input ≡ some r → Spans r
  unfolding toggle_json
  toggle_json-Spans r h = scan-Spans input 0 _ r (omega arith) (λ p e. absurd (none≢some e)) h
