-- ===== src/Prelude/Strip.antt =====
-- Python's `strip`, `rstrip`, `split` on one character, `endswith` and `lower` on texts.
use personal_voice_msg.Prelude.{
  ℕ, ◌+◌, Bool, true, false, ◌&&◌, ◌||◌, Option, none, some, List, [], ◌∷◌, ◌==◌, leb,
  if◌then◌else◌,
}
use personal_voice_msg.Prelude.Text.{Text, same_text, is_space}

abbrev is_nil : Text → Bool
is_nil [] = true
is_nil (c ∷ s) = false

unfoldable pub drop_start : (ℕ → Bool) → Text → Text
drop_start p [] = []
drop_start p (c ∷ s) = let rest = drop_start p s in if p c then rest else c ∷ s

unfoldable pub drop_end : (ℕ → Bool) → Text → Text
drop_end p [] = []
drop_end p (c ∷ s) = let rest = drop_end p s in if is_nil rest && p c then [] else c ∷ rest

-- `text.strip()`
abbrev pub strip : Text → Text
strip s = drop_end is_space (drop_start is_space s)

abbrev add_first : ℕ → List Text → List Text
add_first c [] = (c ∷ []) ∷ []
add_first c (word ∷ words) = (c ∷ word) ∷ words

-- `text.split(separator)`
unfoldable pub split_on : ℕ → Text → List Text
split_on separator [] = [] ∷ []
split_on separator (c ∷ s) =
    let rest = split_on separator s in if c == separator then [] ∷ rest else add_first c rest

-- `text.split(separator, maxsplit=1)` of a text with the separator in it
unfoldable pub split_once : ℕ → Text → Option (Text × Text)
split_once separator [] = none
split_once separator (c ∷ s) =
    let rest = split_once separator s in
    if c == separator
    then some ([], s)
    else elim rest [ none ↦ none | some parts ↦ some (c ∷ parts.0, parts.1) ]

-- `text.endswith(suffix)`
unfoldable pub ends_with : Text → Text → Bool
ends_with suffix [] = same_text suffix []
ends_with suffix (c ∷ s) = same_text suffix (c ∷ s) || ends_with suffix s

abbrev lower_character : ℕ → ℕ
lower_character c = if leb b'A' c && leb c b'Z' then c + 32 else c

-- `text.lower()` of an ASCII text
unfoldable pub lower_ascii : Text → Text
lower_ascii [] = []
lower_ascii (c ∷ s) = lower_character c ∷ lower_ascii s
