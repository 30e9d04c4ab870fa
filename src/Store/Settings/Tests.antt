-- ===== src/Store/Settings/Tests.antt =====
-- The settings on a concrete row, and the theorem at inputs that meet its hypotheses.
use w8nc.Base.{◌≡◌, refl, true, false, none, some, []}
use w8nc.Base.Result.{err}
use w8nc.Base.Text.{Text, codes}
use w8nc.Models.{NotificationSettings}
use w8nc.Models.Sample.{no_proxy}
use w8nc.Store.{no_rows, SettingsRow, Conn, answer, run_statement, statement, changing, query}
use w8nc.Store.Rules.{Returns}
use w8nc.Store.Settings.{
  settings_of, get_notification_settings, updated_row, update_notification_settings, Secrets,
  update_notification_settings-Secrets,
}

settings : Unit {0}
unfolding get_notification_settings update_notification_settings answer run_statement statement
    changing query
settings = tt

abbrev utc : Text
utc = codes "UTC"

abbrev row : SettingsRow
row = record {
  telegram_enabled = true;
  telegram_api_key_encrypted = some (codes "k");
  telegram_chat_id = none;
  telegram_parse_mode = codes "Markdown";
  timezone = none;
  proxy_enabled = false;
  proxy_address = none;
  proxy_username = none;
  proxy_password_encrypted = some (codes "p");
  updated_at = 1;
}

abbrev start : Conn
start = record {
  db = record {
    endpoints = [];
    endpoint_checks = [];
    notification_events = [];
    screenshot_attempts = [];
    last_seen_at = none;
    notification_settings = some row;
    users = [];
    sessions = [];
    tags = [];
    endpoint_tags = [];
  };
  faults = [];
}

abbrev input : NotificationSettings
input = record {
  telegram_enabled = false;
  telegram_api_key_encrypted = none;
  telegram_api_key_set = false;
  telegram_chat_id = none;
  telegram_parse_mode = [];
  timezone = [];
  proxy = no_proxy;
}

-- The key is kept, the password is dropped.
abbrev after : SettingsRow
after = updated_row 2 input true false row

abbrev updated : Conn
updated = (update_notification_settings utc 2 input true false start).1

updating :
    Returns
      (update_notification_settings utc 2 input true false)
      start
      (settings_of utc after)
      updated
unfolding settings
updating = refl

reading : Returns (get_notification_settings utc) updated (settings_of utc after) updated
unfolding settings
reading = refl

read_fields :
    ((settings_of utc after).timezone ≡ utc)
    × ((settings_of utc after).proxy.password_set ≡ false)
    × ((settings_of utc row).proxy.password ≡ codes "********")
    × ((get_notification_settings utc
          (record start { db = record start.db { notification_settings = none } })).0
        ≡ err no_rows)
unfolding settings
read_fields = (refl, refl, refl, refl)

update_notification_settings-Secrets_example :
    (settings_of utc after ≡ settings_of utc after)
    × Secrets input true false (some row) (settings_of utc after)
update_notification_settings-Secrets_example =
    update_notification_settings-Secrets utc 2 input (settings_of utc after) (settings_of utc after)
      true false start updated updated updating reading
