-- ===== src/Discovery/Rules.antt =====
-- `SourceRule`, `CURATED_SOURCES` and `_matching_rule` of
-- src/personal_voice_msg/discovery/baseline.py.
use personal_voice_msg.Prelude.{
  Bool, false, ◌&&◌, ◌||◌, Option, none, some, List, [], ◌∷◌, ◌++◌, leb, length, if◌then◌else◌,
}
use personal_voice_msg.Prelude.Text.{Text, codes, same_text}
use personal_voice_msg.Prelude.Checks.{◌>>=◌}
use personal_voice_msg.Prelude.Strip.{strip, ends_with}
use personal_voice_msg.Discovery.Library.{Library}
use personal_voice_msg.Discovery.Url.{canonical_public_url}

pub record SourceRule : Type 0 where
  pub hostname : Text
  pub rights_evidence : Text

abbrev pub curated_sources : List SourceRule
curated_sources =
    record {
      hostname = codes "standardebooks.org";
      rights_evidence =
          codes "Standard Ebooks states that its editions are believed public domain "
          ++ codes "in the United States and its contributions are CC0; item-specific "
          ++ codes "rights remain unknown until T08 validates the page evidence.";
    }
    ∷ record {
      hostname = codes "en.wikisource.org";
      rights_evidence =
          codes "Wikisource content may be public domain or freely licensed; "
          ++ codes "item-specific rights remain unknown until T08 validates the page "
          ++ codes "evidence.";
    }
    ∷ record {
      hostname = codes "en.wikiquote.org";
      rights_evidence =
          codes "Wikiquote platform licensing does not establish rights in underlying "
          ++ codes "quotations; item-specific rights remain unknown.";
    }
    ∷ []

-- `hostname == rule.hostname or hostname.endswith(f".{rule.hostname}")`
abbrev pub covers : Text → SourceRule → Bool
covers hostname rule = same_text hostname rule.hostname || ends_with (b'.' ∷ rule.hostname) hostname

unfoldable pub first_rule : Text → List SourceRule → Option SourceRule
unfolding same_text ends_with
first_rule hostname [] = none
first_rule hostname (rule ∷ rules) =
    if covers hostname rule then some rule else first_rule hostname rules

module _ (lib : Library) where
  -- The hostname of a canonical URL, which always splits.
  abbrev pub hostname_of : Text → Option Text
  hostname_of url = do parsed ← lib.urlsplit url; parsed.hostname

  abbrev names : Text → Option Text → Bool
  names hostname none = false
  names hostname (some other) = same_text other hostname

  -- `__post_init__`: whether it raises nothing.
  unfoldable pub is_source_rule : SourceRule → Bool
  unfolding canonical_public_url
  is_source_rule rule =
      names rule.hostname (do
        canonical ← canonical_public_url lib (codes "https://" ++ rule.hostname ++ codes "/")
        hostname_of canonical)
      && (leb 1 (length (strip rule.rights_evidence))
          && leb (length (strip rule.rights_evidence)) 1000)

  unfoldable pub matching_rule : Text → List SourceRule → Option SourceRule
  unfolding canonical_public_url first_rule
  matching_rule url rules = do
    canonical ← canonical_public_url lib url
    hostname ← hostname_of canonical
    first_rule hostname rules
