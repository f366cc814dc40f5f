-- ===== src/Config/Loading.antt =====
-- The settings that `load_settings` (src/personal_voice_msg/config.py) returns.
use personal_voice_msg.Prelude.{ℕ, ◌≤◌, ◌<◌, ◌≡◌, arith, true, false, some, length}
use personal_voice_msg.Prelude.Text.{Text}
use personal_voice_msg.Prelude.Int.{pos, negsuc}
use personal_voice_msg.Prelude.Json.{
  Json, null, boolean, integer, real, infinity, nan, string, array, object,
}
use personal_voice_msg.Prelude.Checks.{Returns, Returns-some, Returns-none, Returns-if}
use personal_voice_msg.Prelude.Strip.{strip}
use personal_voice_msg.Config.{
  RuntimeProfile, Host, Settings, max_telegram_chat_id, is_deployed, chat_id_of, project_root,
  private_to, telegram_chat_id,
}

abbrev pub IsChatId : ℕ → Type 0
IsChatId n = (1 ≤ n) × (n < max_telegram_chat_id)

pub chat_id_of-IsChatId : (value : Json) → Returns (chat_id_of value) IsChatId
unfolding chat_id_of
chat_id_of-IsChatId (integer (pos n)) =
    Returns-if _ _ _ (λ inside. Returns-some n (ground (arith, inside), ground (arith, inside)))
      (λ _. Returns-none)
chat_id_of-IsChatId (integer (negsuc n)) = Returns-none
chat_id_of-IsChatId null = Returns-none
chat_id_of-IsChatId (boolean b) = Returns-none
chat_id_of-IsChatId (real r) = Returns-none
chat_id_of-IsChatId (infinity negative) = Returns-none
chat_id_of-IsChatId nan = Returns-none
chat_id_of-IsChatId (string text) = Returns-none
chat_id_of-IsChatId (array items) = Returns-none
chat_id_of-IsChatId (object fields) = Returns-none

module _ (host : Host) where
  -- A file below the secret root; outside development only its owner may touch it, and the owner
  -- is the one who runs the program, on a platform with owners.
  abbrev pub IsSecret : RuntimeProfile → Text → Text → Type 0
  IsSecret profile root path =
      (host.is_relative_to path root ≡ true)
      × (host.is_file path ≡ true)
      × (is_deployed profile ≡ true → private_to host host.geteuid path ≡ true)

  abbrev IsOutside : Text → RuntimeProfile → Text → Type 0
  IsOutside config_path profile root =
      is_deployed profile ≡ true → host.is_relative_to root (project_root host config_path) ≡ false

  -- The stripped content of a file, which is not empty.
  abbrev IsContent : Text → Text → Type 0
  IsContent path secret =
      (content : Text) × (host.read_text path ≡ some content)
      × (secret ≡ strip content)
      × (1 ≤ length secret)

  abbrev pub AreSafe : Text → Settings → Type 0
  AreSafe config_path settings =
      (root : Text) × (chat_path : Text) × (token_path : Text) × (key_path : Text) × IsOutside
        (host.resolve config_path) settings.profile root
      × IsSecret settings.profile root chat_path
      × IsSecret settings.profile root token_path
      × IsSecret settings.profile root settings.voice_embedding
      × IsSecret settings.profile root key_path
      × (telegram_chat_id host chat_path settings.profile ≡ some settings.telegram_chat_id)
      × IsChatId settings.telegram_chat_id
      × IsContent token_path settings.telegram_bot_token
      × IsContent key_path settings.sender_auth_key
