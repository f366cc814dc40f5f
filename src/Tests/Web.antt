-- ===== src/Tests/Web.antt =====
-- Discovery on short URLs, with a library that splits them at the first slash.
use personal_voice_msg.Prelude.{
  ℕ, ◌+◌, ◌≤◌, ◌≡◌, refl, arith, Bool, true, false, Option, none, some, List, [], ◌∷◌, ◌++◌, ◌⊎◌,
  length, any, if◌then◌else◌,
}
use personal_voice_msg.Prelude.Int.{pos}
use personal_voice_msg.Prelude.Json.{null}
use personal_voice_msg.Prelude.Text.{Text, codes, same_text, strip_prefix, count_text}
use personal_voice_msg.Prelude.Strip.{split_once}
use personal_voice_msg.Prelude.Checks.{Returns}
use personal_voice_msg.Exec.{Result, ok, err, boundary_error}
use personal_voice_msg.Exec.Keeps.{Keeps}
use personal_voice_msg.Exec.Ends.{Ends}
use personal_voice_msg.Discovery.Library.{Address, SplitResult, Library}
use personal_voice_msg.Discovery.Policy.{FetchPolicy}
use personal_voice_msg.Discovery.Url.{canonical_public_url, is_public_address}
use personal_voice_msg.Discovery.Response.{Response}
use personal_voice_msg.Discovery.Fetch.{Web, fetch_url}
use personal_voice_msg.Discovery.Redirect.{FetchedPage}
use personal_voice_msg.Discovery.Rounds.{Fetched, Refused, fetch_url-Modest}
use personal_voice_msg.Discovery.PublicUrls.{IsPublicUrl, canonical_public_url-IsPublicUrl}
use personal_voice_msg.Discovery.Resolver.{
  AddressInfo, ResolveResult, Answers, Lookup, resolve, resolve_all,
}
use personal_voice_msg.Discovery.Pinning.{lists, resolve-pinned}
use personal_voice_msg.Discovery.Session.{Session, fetch_public_page}
use personal_voice_msg.Discovery.Calls.{
  Call, record_hits, start, finish, shut, perform, trace, issues, starts, total,
}
use personal_voice_msg.Discovery.Capabilities.{held, trace-le}
use personal_voice_msg.Discovery.Pages.{IsSound, perform-IsSound}

abbrev parts : Text → Text → Option (Text × Text) → SplitResult
parts scheme rest o = record {
  scheme = scheme;
  netloc = elim o [ none ↦ rest | some pair ↦ pair.0 ];
  path = elim o [ none ↦ [] | some pair ↦ b'/' ∷ pair.1 ];
  query = [];
  fragment = [];
  hostname = some (elim o [ none ↦ rest | some pair ↦ pair.0 ]);
  has_username = false;
  has_password = false;
  port = some none;
}

abbrev split_after : Text → Text → Option SplitResult
split_after scheme url = elim (strip_prefix (scheme ++ codes "://") url) [
  | none ↦ none
  | some rest ↦ some (parts scheme rest (split_once b'/' rest))
]

abbrev first_of : Option SplitResult → Option SplitResult → Option SplitResult
first_of none other = other
first_of (some found) other = some found

abbrev pub public_address : Address
public_address = record {
  is_version_6 = false;
  number = 16843009;
  compressed = codes "1.1.1.1";
  is_global = true;
  is_loopback = false;
  is_link_local = false;
  is_multicast = false;
  is_private = false;
  is_reserved = false;
  is_unspecified = false;
  has_ipv4_mapped = false;
  has_sixtofour = false;
  has_teredo = false;
}

abbrev pub library : Library
library = record {
  ip_address = λ text. if same_text text (codes "1.1.1.1") then some public_address else none;
  urlsplit = λ url. first_of (split_after (codes "https") url) (split_after (codes "http") url);
  urlunsplit = λ scheme netloc path query fragment. scheme ++ codes "://" ++ netloc ++ path;
  urljoin = λ base url. some url;
  idna = λ text. some text;
  lower = λ text. text;
  int = λ text. some (pos 5);
  unescape = λ text. text;
  text_parts = λ text. some (text ∷ []);
  compatible = λ text. text;
  is_control = λ c. false;
}

abbrev pub home : Text
home = codes "https://a.org/"

abbrev pub moved : Text
moved = codes "https://b.a.org/x"

abbrev pub policy : FetchPolicy
policy = record {
  max_body_bytes = 10;
  max_redirects = 2;
  max_headers = 64;
  max_line_size = 8192;
  max_field_size = 8192;
  total_timeout_seconds = null;
  dns_timeout_seconds = null;
  connect_timeout_seconds = null;
  read_timeout_seconds = null;
}

abbrev answer : ℕ → List Text → Response
answer status location = record {
  status = status;
  content_type = codes "text/html; charset=utf-8" ∷ [];
  location = location;
  content_encoding = [];
  content_length = codes "5" ∷ [];
  chunks = codes "hel" ∷ codes "lo" ∷ [];
  complete = true;
}

-- The first URL redirects to the second.
abbrev pub web : Web
web earlier url = some (if same_text url home then answer 302 (moved ∷ []) else answer 200 [])

fetch_runs : fetch_url library web policy (codes "id") home [] ≡ (
  ok (record {
    result_id = codes "id";
    final_url = moved;
    media_type = codes "text/html";
    body = codes "hello";
  }),
  moved ∷ home ∷ [],
)
unfolding fetch_url personal_voice_msg.Discovery.Fetch.fetch_rounds personal_voice_msg.Exec.◌>>=◌
    canonical_public_url personal_voice_msg.Prelude.Text.contains same_text split_once
    personal_voice_msg.Prelude.Strip.ends_with personal_voice_msg.Prelude.Strip.split_on
    strip_prefix personal_voice_msg.Prelude.Checks.◌>>=◌ personal_voice_msg.Prelude.Checks.require
    personal_voice_msg.Discovery.Redirect.redirect_target
    personal_voice_msg.Discovery.Redirect.fetched_page
    personal_voice_msg.Discovery.Response.single_header personal_voice_msg.Prelude.Strip.drop_end
    personal_voice_msg.Prelude.Strip.drop_start
    personal_voice_msg.Discovery.Response.response_media_type
    personal_voice_msg.Discovery.Response.http_token
    personal_voice_msg.Discovery.Response.is_parameter
    personal_voice_msg.Discovery.Response.is_quoted
    personal_voice_msg.Discovery.Response.read_bounded_body
    personal_voice_msg.Discovery.Response.read_chunks
    personal_voice_msg.Discovery.Response.validate_response_framing
fetch_runs = refl

home_canonical : canonical_public_url library home ≡ some home
unfolding personal_voice_msg.Prelude.Checks.◌>>=◌ personal_voice_msg.Prelude.Checks.require
    canonical_public_url personal_voice_msg.Prelude.Text.contains same_text split_once
    personal_voice_msg.Prelude.Strip.ends_with personal_voice_msg.Prelude.Strip.split_on
    strip_prefix
home_canonical = refl

fetch_url-Modest_example :
    Ends
      (fetch_url library web policy (codes "id") home)
      []
      (Fetched library policy)
      (Refused library policy)
fetch_url-Modest_example =
    fetch_url-Modest library policy web (codes "id") home (home, home_canonical)

canonical_public_url-IsPublicUrl_example : Returns (canonical_public_url library home) (λ url.
    (parsed : SplitResult) × (library.urlsplit home ≡ some parsed) × IsPublicUrl library parsed url)
canonical_public_url-IsPublicUrl_example = canonical_public_url-IsPublicUrl library home

abbrev info : ℕ → AddressInfo
info family = record { family = family; protocol = 6; address = codes "1.1.1.1" }

abbrev answered : ℕ → ResolveResult
answered family = record {
  hostname = codes "a.org";
  host = codes "1.1.1.1";
  port = 443;
  family = family;
  proto = 6;
}

abbrev unresolved : Answers
unresolved name number = none

abbrev elsewhere : List Lookup
elsewhere = record { host = codes "b.org"; port = 80; found = none } ∷ []

abbrev resolved_once : Answers
resolved_once = (resolve library (codes "a.org") 443 (some (info 2 ∷ info 2 ∷ [])) unresolved).1

abbrev resolved_twice : Answers
resolved_twice =
    (resolve library (codes "a.org") 443 (some (info 10 ∷ []))
      (resolve_all library elsewhere resolved_once)).1

first_answer :
    resolve library (codes "a.org") 443 (some (info 2 ∷ info 2 ∷ [])) unresolved
    ≡ (ok (answered 2 ∷ []), resolved_once)
unfolding resolve personal_voice_msg.Exec.◌>>=◌ is_public_address same_text
    personal_voice_msg.Discovery.Resolver.results_from
first_answer = refl

second_answer :
    resolve library
      (codes "a.org")
      443
      (some (info 10 ∷ []))
      (resolve_all library elsewhere resolved_once)
    ≡ (ok (answered 10 ∷ []), resolved_twice)
unfolding resolve personal_voice_msg.Exec.◌>>=◌ is_public_address same_text resolve_all
    personal_voice_msg.Discovery.Resolver.same_set
    personal_voice_msg.Discovery.Resolver.results_from
second_answer = refl

resolve-pinned_example :
    (lists (codes "1.1.1.1") (answered 10 ∷ []) ≡ lists (codes "1.1.1.1") (answered 2 ∷ []))
    × (lists (codes "1.1.1.1") (answered 2 ∷ []) ≡ true
        → is_public_address library (codes "1.1.1.1") ≡ true)
resolve-pinned_example =
    resolve-pinned library (codes "a.org") 443 (some (info 2 ∷ info 2 ∷ [])) (some (info 10 ∷ []))
      elsewhere unresolved resolved_once resolved_twice (answered 2 ∷ []) (answered 10 ∷ [])
      first_answer second_answer (codes "1.1.1.1")

-- A session that holds one result, and the ids that it will draw.
abbrev pub session : Session
session = record {
  results = record { result_id = codes "id"; url = home } ∷ [];
  closed = false;
  fetch_in_progress = false;
  tokens = codes "id" ∷ codes "new" ∷ [];
}

abbrev calls : List Call
calls =
    record_hits (record { url = moved; title = codes "t"; snippet = codes "s" } ∷ [])
    ∷ start (codes "new")
    ∷ start (codes "id")
    ∷ finish
    ∷ start (codes "new")
    ∷ start (codes "id")
    ∷ shut
    ∷ finish
    ∷ shut
    ∷ []

trace_runs :
    (total (starts (codes "id")) (trace library calls session) ≡ 1)
    × (total (issues (codes "new")) (trace library calls session) ≡ 1)
unfolding trace total personal_voice_msg.Exec.◌>>=◌ personal_voice_msg.Prelude.Checks.◌>>=◌
    personal_voice_msg.Prelude.Checks.require canonical_public_url
    personal_voice_msg.Prelude.Text.contains same_text split_once
    personal_voice_msg.Prelude.Strip.ends_with personal_voice_msg.Prelude.Strip.split_on
    strip_prefix personal_voice_msg.Discovery.Session.record_search_results
    personal_voice_msg.Discovery.Session.issue personal_voice_msg.Discovery.Session.draw
    personal_voice_msg.Discovery.Session.start_fetch
    personal_voice_msg.Discovery.Session.finish_fetch
    personal_voice_msg.Discovery.Session.remove_result personal_voice_msg.Discovery.Session.close
    personal_voice_msg.Discovery.Session.stored_url personal_voice_msg.Discovery.Metadata.prepare
    personal_voice_msg.Discovery.Metadata.sanitize_metadata
    personal_voice_msg.Discovery.Metadata.safe_characters personal_voice_msg.Discovery.Metadata.take
    personal_voice_msg.Normalization.join_words personal_voice_msg.Normalization.split_from
    count_text
trace_runs = (refl, refl)

trace-le_example :
    total (starts (codes "id")) (trace library calls session)
    ≤ total (issues (codes "id")) (trace library calls session) + held (codes "id") session.results
trace-le_example = trace-le library (codes "id") calls session

pub session-IsSound : IsSound library session
session-IsSound = (((home, home_canonical), tt), omega arith, λ c. cc)

perform-IsSound_example : Keeps (IsSound library) (perform library (start (codes "id")))
perform-IsSound_example = perform-IsSound library (start (codes "id"))
