-- ===== src/Discovery/Fetching.antt =====
-- The requests that `_fetch_url` (src/personal_voice_msg/discovery/web.py) makes, and its page.
use personal_voice_msg.Prelude.{
  ℕ, ◌+◌, ◌≤◌, ◌<◌, ◌≡◌, refl, arith, Bool, true, false, not, none, some, List, [], ◌∷◌, ◌++◌,
  length-append, length, any,
}
use personal_voice_msg.Prelude.Text.{Text, Bytes, same_text}
use personal_voice_msg.Prelude.Checks.{
  Returns, Returns-bind, Returns-require, Returns-some, Returns-none, Returns-if,
}
use personal_voice_msg.Discovery.Library.{SplitResult, Library}
use personal_voice_msg.Discovery.Policy.{FetchPolicy}
use personal_voice_msg.Discovery.Response.{
  Response, is_empty, is_supported, response_media_type, read_chunks, read_bounded_body,
}
use personal_voice_msg.Discovery.Url.{canonical_public_url}
use personal_voice_msg.Discovery.Redirect.{FetchedPage, is_https, redirect_target, fetched_page}

not_empty : (body : Bytes) → not (is_empty body) ≡ true → 1 ≤ length body
not_empty [] h = cc
not_empty (c ∷ body) h = omega arith

module _ (lib : Library) where
  media_type_supported :
      (response : Response)
      → Returns (response_media_type lib response) (λ media_type. is_supported media_type ≡ true)
  unfolding response_media_type
  media_type_supported response = Returns-bind _ _ (λ raw _. Returns-bind _ _ (λ sections _.
      Returns-require _ _ (λ tokens.
        Returns-require _ _
          (λ parameters. Returns-require _ _ (λ supported. Returns-some _ supported)))))

  -- A URL that `canonical_public_url` returned.
  abbrev pub IsCanonical : Text → Type 0
  IsCanonical url = (raw : Text) × (canonical_public_url lib raw ≡ some url)

  abbrev pub splits_https : Text → Bool
  splits_https url = elim (lib.urlsplit url) [ none ↦ false | some parsed ↦ is_https parsed ]

  -- `https` is not left.
  abbrev KeepsHttps : Text → List Text → Type 0
  KeepsHttps url [] = Unit
  KeepsHttps url (before ∷ urls) = splits_https before ≡ true → splits_https url ≡ true

  -- The requests of a fetch, the latest first: canonical, all different, and never from `https`
  -- to anything else.
  abbrev pub IsGuarded : List Text → Type 0
  IsGuarded [] = Unit
  IsGuarded (url ∷ urls) =
      IsCanonical url × (any (same_text url) urls ≡ false) × KeepsHttps url urls × IsGuarded urls

  module _ (policy : FetchPolicy) where
    -- What a redirect that is followed has passed.
    pub redirect_target-Passed :
        (parsed : SplitResult) (current : Text) (visited : List Text) (redirects : ℕ)
        (response : Response)
        → Returns (redirect_target lib policy parsed current visited redirects response) (λ url.
          (redirects < policy.max_redirects)
          × IsCanonical url
          × (any (same_text url) visited ≡ false)
          × (is_https parsed ≡ true → splits_https url ≡ true))
    unfolding redirect_target
    redirect_target-Passed parsed current visited redirects response = Returns-require _ _ (λ few.
        Returns-bind _ _ (λ location _. Returns-bind _ _ (λ joined _.
          Returns-bind _ _ (λ redirected canonical. Returns-bind _ _ (λ target split.
            Returns-require _ _ (λ secure. Returns-require _ _ (λ fresh. Returns-some redirected (
              ground arith,
              (joined, canonical),
              ground arith,
              λ was. rw (split, splits_https) (ground arith),
            ))))))))

    read_chunks-le :
        (complete : Bool) (size : ℕ) (before : Bytes) (chunks : List Bytes)
        → length before ≡ size
        → size ≤ policy.max_body_bytes
        → Returns
            (read_chunks policy.max_body_bytes complete size before chunks)
            (λ body. length body ≤ policy.max_body_bytes)
    unfolding read_chunks
    read_chunks-le complete size before [] same small =
        Returns-if complete _ _ (λ _. Returns-some before (omega arith)) (λ _. Returns-none)
    read_chunks-le complete size before (chunk ∷ chunks) same small =
        Returns-if _ _ _ (λ _. Returns-none)
          (λ fits.
            read_chunks-le complete (size + length chunk) (before ++ chunk) chunks
              (omega (arith, length-append before chunk)) (ground (arith, fits)))

    -- A page has a media type of the list and a body of at least one byte and at most the limit.
    abbrev pub IsBounded : FetchedPage → Type 0
    IsBounded page =
        (is_supported page.media_type ≡ true)
        × (1 ≤ length page.body)
        × (length page.body ≤ policy.max_body_bytes)

    read_bounded_body-le :
        (response : Response)
        → Returns
            (read_bounded_body policy response)
            (λ body. (1 ≤ length body) × (length body ≤ policy.max_body_bytes))
    unfolding read_bounded_body
    read_bounded_body-le response = Returns-bind _ _ (λ body read. Returns-require _ _ (λ full.
        Returns-some body (
          not_empty body full,
          (read_chunks-le response.complete 0 [] response.chunks refl (omega arith)).at body read,
        )))

    pub fetched_page-IsBounded :
        (result_id current : Text) (response : Response)
        → Returns
            (fetched_page lib policy result_id current response)
            (λ page. (page.final_url ≡ current) × IsBounded page)
    unfolding fetched_page
    fetched_page-IsBounded result_id current response = Returns-require _ _ (λ fine.
        Returns-bind _ _ (λ media_type known. Returns-require _ _ (λ framed.
          Returns-bind _ _ (λ body read. Returns-some _ (
            refl,
            let sizes = (read_bounded_body-le response).at body read in
                ((media_type_supported response).at media_type known, sizes.0, sizes.1),
          )))))
