-- ===== src/Discovery/Redirect.antt =====
-- The two ways on from a response in `_fetch_url` (src/personal_voice_msg/discovery/web.py): the
-- redirect that is followed, and the page.
use personal_voice_msg.Prelude.{ℕ, Bool, not, ◌&&◌, ◌||◌, Option, some, List, ◌==◌, leb, any}
use personal_voice_msg.Prelude.Text.{Text, Bytes, codes, same_text}
use personal_voice_msg.Prelude.Checks.{◌>>=◌, ◌>>◌, require}
use personal_voice_msg.Discovery.Library.{SplitResult, Library}
use personal_voice_msg.Discovery.Policy.{FetchPolicy}
use personal_voice_msg.Discovery.Response.{
  Response, single_header, response_media_type, validate_response_framing, read_bounded_body,
}
use personal_voice_msg.Discovery.Url.{canonical_public_url}

pub record FetchedPage : Type 0 where
  pub result_id : Text
  pub final_url : Text
  pub media_type : Text
  pub body : Bytes

abbrev pub is_redirect : ℕ → Bool
is_redirect status =
    status == 301 || (status == 302 || (status == 303 || (status == 307 || status == 308)))

abbrev pub is_https : SplitResult → Bool
is_https parsed = same_text parsed.scheme (codes "https")

module _ (lib : Library) (policy : FetchPolicy) where
  -- The URL that a redirect leads to, if it is followed.
  unfoldable pub redirect_target : SplitResult → Text → List Text → ℕ → Response → Option Text
  redirect_target parsed current_url visited redirects response = do
    require (not (leb policy.max_redirects redirects))
    location ← single_header response.location
    joined ← lib.urljoin current_url location
    redirected ← canonical_public_url lib joined
    target ← lib.urlsplit redirected
    require (not (is_https parsed && not (is_https target)))
    require (not (any (same_text redirected) visited))
    some redirected

  -- What follows the test for a redirect.
  unfoldable pub fetched_page : Text → Text → Response → Option FetchedPage
  fetched_page result_id current_url response = do
    require (response.status == 200)
    media_type ← response_media_type lib response
    require (validate_response_framing lib policy response)
    body ← read_bounded_body policy response
    some (record {
      result_id = result_id;
      final_url = current_url;
      media_type = media_type;
      body = body;
    })
