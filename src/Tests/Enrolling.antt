-- ===== src/Tests/Enrolling.antt =====
-- An enrollment and the settings on a host with a handful of files.
use personal_voice_msg.Prelude.{
  ℕ, ◌≡◌, refl, arith, Bool, true, false, Option, none, some, List, [], ◌∷◌, ◌++◌, if◌then◌else◌,
}
use personal_voice_msg.Prelude.Text.{Text, codes, same_text, strip_prefix, is_prefix}
use personal_voice_msg.Prelude.Int.{pos}
use personal_voice_msg.Prelude.Json.{
  Json, Fields, boolean, integer, string, array, object, nil, cons, field, end,
}
use personal_voice_msg.Exec.{ok}
use personal_voice_msg.Exec.Ends.{Ends}
use personal_voice_msg.Config.{
  RuntimeProfile, production, staging, Host, load_settings, telegram_chat_id,
}
use personal_voice_msg.Enrollment.{Disk, recipient, enroll_recipient, extract_chat_id}
use personal_voice_msg.Enrollment.Enrolled.{ReadsBack, Enrolls, enroll_recipient-Enrolls}

-- The files of the host hold what their names say.
abbrev host : Host
host = record {
  resolve = λ path. path;
  resolve_strict = λ path. some path;
  join = λ parent path. parent ++ b'/' ∷ path;
  parent = λ path. codes "/home";
  parents = λ path. codes "/home" ∷ [];
  is_absolute = λ path. is_prefix (codes "/") path;
  is_relative_to = λ path root. is_prefix root path;
  exists = λ path. false;
  is_file = λ path. true;
  is_dir = λ path. true;
  stat = λ path. some (record { size = 8; uid = 7; mode = 384 });
  read_text = λ path. some (codes " secret ");
  geteuid = some 7;
  load_toml = λ content. some (
      field (codes "profile") (string (codes "production")) (
        field (codes "secret_root") (string (codes "/secrets")) (
          field (codes "telegram_chat_id_file") (string (codes "chat")) (
            field (codes "telegram_bot_token_file") (string (codes "token")) (
              field (codes "voice_embedding_file") (string (codes "voice"))
                (field (codes "sender_auth_key_file") (string (codes "key")) end))))));
  load_json = λ content. some (object (recipient production 42));
}

settings_run :
    load_settings host (codes "/home/config.toml")
    ≡ some (record {
      profile = production;
      telegram_chat_id = 42;
      telegram_bot_token = codes "secret";
      voice_embedding = codes "/secrets/voice";
      sender_auth_key = codes "secret";
    })
unfolding load_settings personal_voice_msg.Prelude.Checks.◌>>=◌
    personal_voice_msg.Prelude.Checks.require personal_voice_msg.Prelude.Json.has_exactly
    personal_voice_msg.Prelude.Json.as_string personal_voice_msg.Prelude.Json.get_or_null
    personal_voice_msg.Prelude.Json.as_object personal_voice_msg.Config.read_toml
    personal_voice_msg.Config.runtime_profile personal_voice_msg.Config.secret_root
    personal_voice_msg.Config.project_root personal_voice_msg.Config.secret_file
    personal_voice_msg.Config.validate_secret_file_permissions
    personal_voice_msg.Config.has_duplicate_keys personal_voice_msg.Config.chat_id_of
    personal_voice_msg.Config.bounded_secret_text strip_prefix telegram_chat_id same_text
    personal_voice_msg.Prelude.Strip.drop_end personal_voice_msg.Prelude.Strip.drop_start
settings_run = refl

-- An answer with one message, from the chat 42.
abbrev answer : Json
answer = object (
    field (codes "ok") (boolean true) (
      field (codes "result")
        (array (
          cons
            (object (
              field (codes "message")
                (object
                  (field (codes "chat") (object (field (codes "id") (integer (pos 42)) end)) end))
                end))
            nil))
        end))

abbrev no_files : Disk
no_files path = none

answer_runs : extract_chat_id answer ≡ ok 42
unfolding extract_chat_id personal_voice_msg.Prelude.Json.truthy
answer_runs = refl

-- A host that reads a recipient file as the number of its characters says.
abbrev dumps : Fields → Text
dumps (field p profile (field c (integer (pos n)) end)) = n ∷ []
dumps fields = []

abbrev loads : Text → Option Json
loads (n ∷ []) = some (object (recipient production n))
loads content = none

abbrev reader : Host
reader = record host { load_json = loads }

reader-ReadsBack : ReadsBack dumps reader (codes "/secrets/chat") production
reader-ReadsBack n = refl

enroll_recipient-Enrolls_example :
    Ends
      (enroll_recipient dumps (some answer) (codes "/secrets/chat") production)
      no_files
      (Enrolls dumps reader (codes "/secrets/chat") production (some answer) no_files)
      (λ e after. after ≡ no_files)
enroll_recipient-Enrolls_example =
    enroll_recipient-Enrolls dumps reader (codes "/secrets/chat") production (some answer) no_files
      reader-ReadsBack
