-- ===== src/Discovery/Structure.antt =====
-- The texts that `_json_structure_is_bounded` (src/personal_voice_msg/discovery/baseline.py)
-- is made for: brackets and quoted strings among other characters.
use mathlib.Core.List.{append-nil, append_assoc}
use personal_voice_msg.Prelude.{
  ℕ, suc, ◌+◌, ◌≤◌, ◌≡◌, refl, sym, ap, ◌∙◌, arith, Bool, true, false, not, ◌&&◌, ◌||◌, Option,
  none, some, [], ◌∷◌, ◌++◌, ◌==◌, leb, ltb, Bool-cases, inl, inr, if◌then◌else◌,
}
use personal_voice_msg.Prelude.Text.{Text}
use personal_voice_msg.Discovery.Search.{
  max_search_json_depth, Scan, scan_all, at_start, json_structure_is_bounded,
}

abbrev is_opening : ℕ → Bool
is_opening c = c == b'{' || c == b'['

abbrev is_closing : ℕ → Bool
is_closing c = c == b'}' || c == b']'

-- What stands between two quotes.
pub data Quoted : Text → Type 0 where
  end_quote : Quoted []
  char : (c : ℕ) (s : Text) → (c == b'"') ≡ false → (c == b'\\') ≡ false → Quoted s → Quoted (c ∷ s)
  escape : (c : ℕ) (s : Text) → Quoted s → Quoted (b'\\' ∷ c ∷ s)

pub data Structured : Text → Type 0 where
  end_text : Structured []
  other :
      (c : ℕ) (s : Text)
      → (c == b'"') ≡ false
      → is_opening c ≡ false
      → is_closing c ≡ false
      → Structured s
      → Structured (c ∷ s)
  quotation : (q s : Text) → Quoted q → Structured s → Structured (b'"' ∷ q ++ b'"' ∷ s)
  nested :
      (c d : ℕ) (inside s : Text)
      → is_opening c ≡ true
      → is_closing d ≡ true
      → Structured inside
      → Structured s
      → Structured (c ∷ inside ++ d ∷ s)

abbrev larger : ℕ → ℕ → ℕ
larger m n = if leb m n then n else m

-- How deep the brackets are nested.
unfoldable pub nesting : {text : Text} → Structured text → ℕ
nesting end_text = 0
nesting (other c s q o d rest) = nesting rest
nesting (quotation q s quoted rest) = nesting rest
nesting (nested c d inside s o e within rest) = larger (nesting within + 1) (nesting rest)

abbrev at_depth : ℕ → Scan
at_depth d = record { depth = d; in_string = false; escaped = false }

abbrev quoted_at : ℕ → Scan
quoted_at d = record { depth = d; in_string = true; escaped = false }

scan-Quoted :
    (d : ℕ) (q rest : Text)
    → Quoted q
    → scan_all (q ++ b'"' ∷ rest) (quoted_at d) ≡ scan_all rest (at_depth d)
unfolding scan_all
scan-Quoted d _ rest end_quote = refl
scan-Quoted d _ rest (char c s plain single more) = rw (plain, single) (scan-Quoted d s rest more)
scan-Quoted d _ rest (escape c s more) = scan-Quoted d s rest more

scan-other :
    (d c : ℕ) (s : Text)
    → (c == b'"') ≡ false
    → is_opening c ≡ false
    → is_closing c ≡ false
    → scan_all (c ∷ s) (at_depth d) ≡ scan_all s (at_depth d)
unfolding scan_all
scan-other d c s q o e = ground (arith, q, o, e)

scan-opening :
    (d c : ℕ) (s : Text)
    → is_opening c ≡ true
    → scan_all (c ∷ s) (at_depth d)
      ≡ (if ltb max_search_json_depth (d + 1) then none else scan_all s (at_depth (suc d)))
unfolding scan_all
scan-opening d c s o = rw (← sum) (ground (arith, o))
  where
    sum : d + 1 ≡ suc d
    sum = omega arith

scan-closing :
    (d c : ℕ) (s : Text)
    → is_closing c ≡ true
    → scan_all (c ∷ s) (at_depth (suc d)) ≡ scan_all s (at_depth d)
unfolding scan_all
scan-closing d c s e = ground (arith, e)

-- What the scan of a structured text does to the scan of what follows it.
scan-Structured :
    (d : ℕ) (text rest : Text) (s : Structured text)
    → d ≤ max_search_json_depth
    → scan_all (text ++ rest) (at_depth d)
      ≡ (if leb (d + nesting s) max_search_json_depth then scan_all rest (at_depth d) else none)
unfolding scan_all nesting
scan-Structured d _ rest end_text h = ground arith
scan-Structured d _ rest (other c s q o e more) h =
    scan-other d c (s ++ rest) q o e ∙ scan-Structured d s rest more h
scan-Structured d _ rest (quotation q s quoted more) h =
    ap (λ t. scan_all t (quoted_at d)) (append_assoc q (b'"' ∷ s) rest)
    ∙ scan-Quoted d q (s ++ rest) quoted
    ∙ scan-Structured d s rest more h
scan-Structured d _ rest (nested c e inside s o f within more) h =
    ap (λ t. scan_all (c ∷ t) (at_depth d)) (append_assoc inside (e ∷ s) rest)
    ∙ scan-opening d c (inside ++ (e ∷ (s ++ rest))) o
    ∙ elim (Bool-cases (ltb max_search_json_depth (d + 1))) [
      | inl deep ↦ rw deep (ground arith)
      | inr shallow ↦ rw shallow (
          scan-Structured (suc d) inside (e ∷ (s ++ rest)) within (ground arith)
          ∙ rw (scan-closing d e (s ++ rest) f, scan-Structured d s rest more h) (ground arith))
    ]

abbrev ends_outside : Option Scan → Bool
ends_outside o = elim o [ none ↦ false | some scan ↦ scan.depth == 0 && not scan.in_string ]

-- A text of brackets and quoted strings is accepted exactly if its brackets are nested at most 64
-- deep.
pub json_structure_is_bounded_iff :
    (text : Text) (s : Structured text)
    → json_structure_is_bounded text ≡ leb (nesting s) max_search_json_depth
unfolding json_structure_is_bounded scan_all
json_structure_is_bounded_iff text s =
    ap ends_outside (ap (λ t. scan_all t at_start) (sym (append-nil text)))
    ∙ ap ends_outside (scan-Structured 0 text [] s (omega arith))
    ∙ ground arith
