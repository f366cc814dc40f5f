-- ===== src/Config.antt =====
-- src/personal_voice_msg/config.py and src/personal_voice_msg/generation/config.py: the settings and
-- the secret files. Paths are texts; `pathlib`,
-- `os`, `tomllib` and `json` are parameters.
pub mod Loading
use personal_voice_msg.Prelude.{
  ℕ, zero, suc, ◌+◌, ◌^◌, ◌%◌, Bool, true, false, not, ◌&&◌, ◌||◌, Option, none, some, List, [],
  ◌∷◌, ◌==◌, ltb, leb, length, all, any, if◌then◌else◌,
}
use personal_voice_msg.Prelude.Text.{Text, codes, same_text}
use personal_voice_msg.Prelude.Int.{pos}
use personal_voice_msg.Prelude.Json.{
  Json, Items, Fields, null, boolean, integer, real, infinity, nan, string, array, object, nil,
  cons, field, end, get, get_or_null, keys_of, among, has_exactly, as_object, as_string,
}
use personal_voice_msg.Prelude.Checks.{◌>>=◌, ◌>>◌, require}
use personal_voice_msg.Prelude.Strip.{strip}

pub data RuntimeProfile : Type 0 where
  development staging production : RuntimeProfile

abbrev pub profile_value : RuntimeProfile → Text
profile_value development = codes "development"
profile_value staging = codes "staging"
profile_value production = codes "production"

-- What `Path.stat` tells.
pub record Stat : Type 0 where
  pub size : ℕ
  pub uid : ℕ
  pub mode : ℕ

-- The file system and the libraries as one call of `load_settings` meets them. `none` is an
-- exception that the caller turns into a `ConfigurationError`.
pub record Host : Type 0 where
  -- `path.resolve()` and `path.resolve(strict=True)`
  pub resolve : Text → Text
  pub resolve_strict : Text → Option Text
  -- `parent / path` of `pathlib`, `path.parent` and the list `path.parents`
  pub join : Text → Text → Text
  pub parent : Text → Text
  pub parents : Text → List Text
  pub is_absolute : Text → Bool
  pub is_relative_to : Text → Text → Bool
  pub exists : Text → Bool
  pub is_file : Text → Bool
  pub is_dir : Text → Bool
  pub stat : Text → Option Stat
  pub read_text : Text → Option Text
  -- `os.geteuid`, where the platform has it
  pub geteuid : Option ℕ
  -- `tomllib.loads`
  pub load_toml : Text → Option Fields
  -- `json.loads` with the pairs of each object as they are written
  pub load_json : Text → Option Json

abbrev pub max_telegram_chat_id : ℕ
max_telegram_chat_id = 2 ^ 52

abbrev pub max_secret_characters : ℕ
max_secret_characters = 4096

abbrev pub required_settings : List Text
required_settings =
    codes "profile"
    ∷ codes "secret_root"
    ∷ codes "telegram_chat_id_file"
    ∷ codes "telegram_bot_token_file"
    ∷ codes "voice_embedding_file"
    ∷ codes "sender_auth_key_file"
    ∷ []

abbrev max_gemini_api_key_characters : ℕ
max_gemini_api_key_characters = 4096

abbrev pub generation_required_settings : List Text
generation_required_settings =
    codes "profile" ∷ codes "secret_root" ∷ codes "gemini_api_key_file" ∷ []

abbrev pub chat_id_settings : List Text
chat_id_settings = codes "profile" ∷ codes "telegram_chat_id" ∷ []

-- `Settings`, with its sensitive values revealed.
pub record Settings : Type 0 where
  pub profile : RuntimeProfile
  pub telegram_chat_id : ℕ
  pub telegram_bot_token : Text
  pub voice_embedding : Text
  pub sender_auth_key : Text

abbrev are_strings : Fields → Bool
are_strings end = true
are_strings (field key (string text) fields) = are_strings fields
are_strings (field key value fields) = false

unfoldable pub runtime_profile : Text → Option RuntimeProfile
unfolding same_text
runtime_profile value =
    if same_text value (codes "development")
    then some development
    else if same_text value (codes "staging")
    then some staging
    else if same_text value (codes "production")
    then some production
    else none

-- `_reject_duplicate_json_keys`, the hook for every object of a document: whether it raises.
unfoldable mutual
  unfolding same_text

  pub has_duplicate_keys : Json → Bool
  has_duplicate_keys null = false
  has_duplicate_keys (boolean b) = false
  has_duplicate_keys (integer n) = false
  has_duplicate_keys (real r) = false
  has_duplicate_keys (infinity negative) = false
  has_duplicate_keys nan = false
  has_duplicate_keys (string text) = false
  has_duplicate_keys (array items) = item_duplicates items
  has_duplicate_keys (object fields) = field_duplicates fields

  item_duplicates : Items → Bool
  item_duplicates nil = false
  item_duplicates (cons value items) = has_duplicate_keys value || item_duplicates items

  field_duplicates : Fields → Bool
  field_duplicates end = false
  field_duplicates (field key value fields) =
      any (same_text key) (keys_of fields) || (has_duplicate_keys value || field_duplicates fields)

-- An exact integer in the range; `true` is none.
unfoldable pub chat_id_of : Json → Option ℕ
chat_id_of (integer (pos n)) = if ltb 0 n && ltb n max_telegram_chat_id then some n else none
chat_id_of _ = none

abbrev pub is_deployed : RuntimeProfile → Bool
is_deployed development = false
is_deployed staging = true
is_deployed production = true

module _ (host : Host) where
  unfoldable pub read_toml : Text → List Text → Option Fields
  read_toml config_path required = do
    content ← host.read_text config_path
    document ← host.load_toml content
    require (has_exactly required document)
    require (are_strings document)
    some document

  abbrev is_root : Text → Bool
  is_root parent =
      host.is_file (host.join parent (codes "pyproject.toml"))
      || host.exists (host.join parent (codes ".git"))

  abbrev first_root : Text → List Text → Text
  first_root otherwise [] = otherwise
  first_root otherwise (parent ∷ parents) =
      if is_root parent then parent else first_root otherwise parents

  -- `_project_root`
  unfoldable pub project_root : Text → Text
  project_root config_path = first_root (host.parent config_path) (host.parents config_path)

  unfoldable pub secret_root : Text → Text → RuntimeProfile → Option Text
  secret_root config_path value profile = do
    resolved ←
        host.resolve_strict
          (if host.is_absolute value then value else host.join (host.parent config_path) value)
    require (host.is_dir resolved)
    require (not (is_deployed profile && host.is_relative_to resolved (project_root config_path)))
    some resolved

  abbrev is_private : ℕ → Option Stat → Bool
  is_private user none = false
  is_private user (some info) = info.uid == user && info.mode % 64 == 0

  abbrev pub private_to : Option ℕ → Text → Bool
  private_to none path = true
  private_to (some user) path = is_private user (host.stat path)

  -- `_validate_secret_file_permissions`: whether it raises nothing.
  unfoldable pub validate_secret_file_permissions : Text → Bool
  validate_secret_file_permissions path = private_to host.geteuid path

  unfoldable pub secret_file : Text → Text → RuntimeProfile → Option Text
  secret_file root value profile = do
    require (not (host.is_absolute value))
    resolved ← host.resolve_strict (host.join root value)
    require (host.is_relative_to resolved root && host.is_file resolved)
    require (not (is_deployed profile) || validate_secret_file_permissions resolved)
    some resolved

  -- `_telegram_chat_id`
  unfoldable pub telegram_chat_id : Text → RuntimeProfile → Option ℕ
  telegram_chat_id path profile = do
    content ← host.read_text path
    document ← host.load_json content
    require (not (has_duplicate_keys document))
    fields ← as_object document
    require (has_exactly chat_id_settings fields)
    recipient_profile ← as_string (get_or_null (codes "profile") fields)
    require (same_text recipient_profile (profile_value profile))
    chat_id_of (get_or_null (codes "telegram_chat_id") fields)

  abbrev pub is_empty : Text → Bool
  is_empty [] = true
  is_empty (c ∷ s) = false

  -- `_bounded_secret_text`
  unfoldable pub bounded_secret_text : Text → ℕ → Option Text
  bounded_secret_text path max_characters = do
    info ← host.stat path
    require (leb info.size max_characters)
    content ← host.read_text path
    require (not (is_empty (strip content)))
    some (strip content)

  -- `_api_key` of src/personal_voice_msg/generation/config.py
  unfoldable pub gemini_api_key : Text → Option Text
  gemini_api_key path = do
    info ← host.stat path
    require (leb info.size max_gemini_api_key_characters)
    content ← host.read_text path
    require (not (is_empty (strip content)))
    some (strip content)

  abbrev setting : Text → Fields → Option Text
  setting key document = as_string (get_or_null key document)

  unfoldable pub load_settings : Text → Option Settings
  load_settings config_path = do
    let path = host.resolve config_path
    document ← read_toml path required_settings
    profile_name ← setting (codes "profile") document
    profile ← runtime_profile profile_name
    root_name ← setting (codes "secret_root") document
    root ← secret_root path root_name profile
    chat_id_name ← setting (codes "telegram_chat_id_file") document
    chat_id_path ← secret_file root chat_id_name profile
    token_name ← setting (codes "telegram_bot_token_file") document
    token_path ← secret_file root token_name profile
    embedding_name ← setting (codes "voice_embedding_file") document
    embedding_path ← secret_file root embedding_name profile
    key_name ← setting (codes "sender_auth_key_file") document
    key_path ← secret_file root key_name profile
    chat_id ← telegram_chat_id chat_id_path profile
    token ← bounded_secret_text token_path max_secret_characters
    key ← bounded_secret_text key_path max_secret_characters
    some (record {
      profile = profile;
      telegram_chat_id = chat_id;
      telegram_bot_token = token;
      voice_embedding = embedding_path;
      sender_auth_key = key;
    })

  -- `load_gemini_settings` of src/personal_voice_msg/generation/config.py: the profile and the key.
  unfoldable pub load_gemini_settings : Text → Option (RuntimeProfile × Text)
  load_gemini_settings config_path = do
    let path = host.resolve config_path
    document ← read_toml path generation_required_settings
    profile_name ← setting (codes "profile") document
    profile ← runtime_profile profile_name
    root_name ← setting (codes "secret_root") document
    root ← secret_root path root_name profile
    key_name ← setting (codes "gemini_api_key_file") document
    key_path ← secret_file root key_name profile
    key ← gemini_api_key key_path
    some (profile, key)
