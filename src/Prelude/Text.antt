-- ===== src/Prelude/Text.antt =====
-- Python's `str` as a list of code points and `bytes` as a list of byte values; the tests `==`,
-- `in` and `startswith` on them.
use Prim.Native.Char.{code}
use Prim.Native.String.{String}
use Prim.Native.Nat.{ℕ, ◌+◌, suc}
use mathlib.Core.Path.{◌≡◌, refl}
use mathlib.Core.Bool.{Bool, true, false, ◌&&◌, ◌||◌}
use mathlib.Core.Option.{Option, none, some}
use mathlib.Core.List.{List, [], ◌∷◌, ◌++◌}
use native.Mathlib.Omega.{arith}
use personal_voice_msg.Prelude.Tests.{◌==◌, leb, if◌then◌else◌}
use personal_voice_msg.Prelude.Lists.{all}

abbrev pub Text : Type 0
Text = List ℕ

abbrev pub Bytes : Type 0
Bytes = List ℕ

-- A text literal of the source.
abbrev pub codes : String → Text
codes String.[] = []
codes (String.◌∷◌ c s) = code c ∷ codes s

unfoldable pub same_text : Text → Text → Bool
same_text [] [] = true
same_text (a ∷ s) (b ∷ t) = a == b && same_text s t
same_text _ _ = false

-- The test on texts decides their equality.
pub same_text→eq : (s t : Text) → same_text s t ≡ true → s ≡ t
unfolding same_text
same_text→eq [] [] h = refl
same_text→eq [] (b ∷ t) h = cc
same_text→eq (a ∷ s) [] h = cc
same_text→eq (a ∷ s) (b ∷ t) h = ground (arith, same_text→eq s t)

pub same_text_self : (s : Text) → same_text s s ≡ true
unfolding same_text
same_text_self [] = refl
same_text_self (a ∷ s) = ground (arith, same_text_self s)

pub eq→same_text : (s t : Text) → s ≡ t → same_text s t ≡ true
eq→same_text s t e = rw e (same_text_self t)

-- What is left of a text behind a prefix, if it starts with it.
unfoldable pub strip_prefix : Text → Text → Option Text
strip_prefix [] s = some s
strip_prefix (a ∷ p) [] = none
strip_prefix (a ∷ p) (b ∷ s) = if a == b then strip_prefix p s else none

pub strip_prefix-append : (p s : Text) → strip_prefix p (p ++ s) ≡ some s
unfolding strip_prefix
strip_prefix-append [] s = refl
strip_prefix-append (a ∷ p) s = ground (arith, strip_prefix-append p s)

abbrev pub is_prefix : Text → Text → Bool
is_prefix p s = elim (strip_prefix p s) [ none ↦ false | some r ↦ true ]

-- `needle in s`.
unfoldable pub contains : Text → Text → Bool
unfolding strip_prefix
contains needle [] = is_prefix needle []
contains needle (c ∷ s) = is_prefix needle (c ∷ s) || contains needle s

-- How often a text stands in a list of texts.
unfoldable pub count_text : Text → List Text → ℕ
count_text k [] = 0
count_text k (s ∷ l) = let rest = count_text k l in if same_text k s then suc rest else rest

pub count_text-append :
    (k : Text) (l m : List Text) → count_text k (l ++ m) ≡ count_text k l + count_text k m
unfolding count_text
count_text-append k [] m = omega arith
count_text-append k (s ∷ l) m = ground (arith, count_text-append k l m)

-- `str.isspace` of one character.
abbrev pub is_space : ℕ → Bool
is_space c =
    (leb 9 c && leb c 13 || leb 28 c && leb c 32)
    || (c == 133 || c == 160 || c == 5760 || leb 8192 c && leb c 8202)
    || (c == 8232 || c == 8233 || c == 8239 || c == 8287 || c == 12288)

-- `not text.strip()`
unfoldable pub is_blank : Text → Bool
is_blank = all is_space
