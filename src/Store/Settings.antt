-- ===== src/Store/Settings.antt =====
-- The notification settings of internal/db/db.go: GetNotificationSettings and
-- UpdateNotificationSettings. `system_zone` is the result of `timezone.DefaultName`, which asks the
-- environment of the process.
mod Tests
use w8nc.Base.{
  ℕ, ◌≡◌, refl, sym, ap, ◌∙◌, Bool, true, false, not, ◌&&◌, Option, none, some, [], if◌then◌else◌,
  arith, inl, inr, Bool-cases,
}
use w8nc.Base.Result.{Result, ok, err, ok-injective}
use w8nc.Base.Text.{Text, codes, is_empty, trim_space}
use w8nc.Models.{NotificationSettings, ProxyConfig}
use w8nc.Store.{Error, no_rows, SettingsRow, Db, Conn, Op, query, changing}
use w8nc.Store.Rules.{Returns, changing-ok, query-ok}

-- stringFromNull
abbrev pub string_from_null : Option Text → Text
string_from_null none = []
string_from_null (some s) = s

-- nullString
abbrev pub null_string : Text → Option Text
null_string s = if is_empty (trim_space s) then none else some s

-- `value.Valid && value.String != ""`
abbrev pub is_set : Option Text → Bool
is_set none = false
is_set (some s) = not (is_empty s)

abbrev pub proxy_of : SettingsRow → ProxyConfig
proxy_of row = record {
  enabled = row.proxy_enabled;
  address = string_from_null row.proxy_address;
  username = string_from_null row.proxy_username;
  password = if is_set row.proxy_password_encrypted then codes "********" else [];
  password_encrypted = row.proxy_password_encrypted;
  password_set = is_set row.proxy_password_encrypted;
}

-- What both operations make of the row.
abbrev pub settings_of : Text → SettingsRow → NotificationSettings
settings_of system_zone row = record {
  telegram_enabled = row.telegram_enabled;
  telegram_api_key_encrypted = row.telegram_api_key_encrypted;
  telegram_api_key_set = is_set row.telegram_api_key_encrypted;
  telegram_chat_id = row.telegram_chat_id;
  telegram_parse_mode = row.telegram_parse_mode;
  timezone =
      if is_empty (string_from_null row.timezone)
      then system_zone
      else string_from_null row.timezone;
  proxy = proxy_of row;
}

abbrev pub read_settings : Text → Option SettingsRow → Result Error NotificationSettings
read_settings system_zone none = err no_rows
read_settings system_zone (some row) = ok (settings_of system_zone row)

-- GetNotificationSettings
unfoldable pub get_notification_settings : Text → Op NotificationSettings
get_notification_settings system_zone =
    query (λ db. read_settings system_zone db.notification_settings)

-- The UPDATE that keeps both secrets.
abbrev pub set_but_secrets : ℕ → NotificationSettings → SettingsRow → SettingsRow
set_but_secrets now input row = record row {
  telegram_enabled = input.telegram_enabled;
  telegram_chat_id = input.telegram_chat_id;
  telegram_parse_mode = input.telegram_parse_mode;
  timezone = some input.timezone;
  proxy_enabled = input.proxy.enabled;
  proxy_address = null_string input.proxy.address;
  proxy_username = null_string input.proxy.username;
  updated_at = now;
}

-- The other UPDATE, with a CASE for each secret.
abbrev pub set_all : ℕ → NotificationSettings → Bool → Bool → SettingsRow → SettingsRow
set_all now input keep_token keep_password row = record row {
  telegram_enabled = input.telegram_enabled;
  telegram_api_key_encrypted =
      if keep_token then row.telegram_api_key_encrypted else input.telegram_api_key_encrypted;
  telegram_chat_id = input.telegram_chat_id;
  telegram_parse_mode = input.telegram_parse_mode;
  timezone = some input.timezone;
  proxy_enabled = input.proxy.enabled;
  proxy_address = null_string input.proxy.address;
  proxy_username = null_string input.proxy.username;
  proxy_password_encrypted =
      if keep_password then row.proxy_password_encrypted else input.proxy.password_encrypted;
  updated_at = now;
}

abbrev pub updated_row : ℕ → NotificationSettings → Bool → Bool → SettingsRow → SettingsRow
updated_row now input keep_token keep_password row =
    if keep_token && keep_password
    then set_but_secrets now input row
    else set_all now input keep_token keep_password row

abbrev pub on_row : (SettingsRow → SettingsRow) → Option SettingsRow → Option SettingsRow
on_row f none = none
on_row f (some row) = some (f row)

-- UpdateNotificationSettings
unfoldable pub update_notification_settings :
    Text → ℕ → NotificationSettings → Bool → Bool → Op NotificationSettings
update_notification_settings system_zone now input keep_token keep_password =
    let f = updated_row now input keep_token keep_password in
    changing (λ db. read_settings system_zone (on_row f db.notification_settings))
      (λ db. record db { notification_settings = on_row f db.notification_settings })

-- A secret after the update: the old one if it is kept, else that of the input.
abbrev pub Secrets :
    NotificationSettings → Bool → Bool → Option SettingsRow → NotificationSettings → Type 0
Secrets input keep_token keep_password none settings = ⊥
Secrets input keep_token keep_password (some row) settings =
    (settings.telegram_api_key_encrypted
      ≡ (if keep_token then row.telegram_api_key_encrypted else input.telegram_api_key_encrypted))
    × (settings.proxy.password_encrypted
        ≡ (if keep_password then row.proxy_password_encrypted else input.proxy.password_encrypted))

updated_row-Secrets :
    (system_zone : Text) (now : ℕ) (input : NotificationSettings) (keep_token keep_password : Bool)
    (old : Option SettingsRow) (settings : NotificationSettings)
    → read_settings system_zone (on_row (updated_row now input keep_token keep_password) old)
      ≡ ok settings
    → Secrets input keep_token keep_password old settings
updated_row-Secrets system_zone now input keep_token keep_password none settings h =
    absurd (ground arith)
updated_row-Secrets system_zone now input true true (some row) settings h =
    let e = sym (ok-injective h) in
    (ap (λ s. s.telegram_api_key_encrypted) e, ap (λ s. s.proxy.password_encrypted) e)
updated_row-Secrets system_zone now input true false (some row) settings h =
    let e = sym (ok-injective h) in
    (ap (λ s. s.telegram_api_key_encrypted) e, ap (λ s. s.proxy.password_encrypted) e)
updated_row-Secrets system_zone now input false keep_password (some row) settings h =
    let e = sym (ok-injective h) in
    (ap (λ s. s.telegram_api_key_encrypted) e, ap (λ s. s.proxy.password_encrypted) e)

-- The settings that UpdateNotificationSettings returns are those that a GetNotificationSettings right
-- after it reads, and each secret is the old one if it is to be kept, else that of the input.
pub update_notification_settings-Secrets :
    (system_zone : Text) (now : ℕ) (input settings read : NotificationSettings)
    (keep_token keep_password : Bool) (c c' c'' : Conn)
    → Returns
        (update_notification_settings system_zone now input keep_token keep_password)
        c
        settings
        c'
    → Returns (get_notification_settings system_zone) c' read c''
    → (read ≡ settings) × Secrets input keep_token keep_password c.db.notification_settings settings
unfolding update_notification_settings get_notification_settings
update_notification_settings-Secrets system_zone now input settings read keep_token keep_password c
      c' c'' h k =
    let (found, changed) = changing-ok _ _ c h in
    let (got, _) = query-ok _ c' k in
    (
      ok-injective (
          sym got
          ∙ (ap (λ db. read_settings system_zone db.notification_settings) changed ∙ found)),
      updated_row-Secrets system_zone now input keep_token keep_password c.db.notification_settings
          settings found,
    )
