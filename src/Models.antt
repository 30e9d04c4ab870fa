-- ===== src/Models.antt =====
-- internal/models/models.go: the data that the other parts exchange. An id is a text, a
-- `*T` is an `Option`, and a time is a number of nanoseconds.
pub mod Tags
pub mod Sample
use w8nc.Base.{ℕ, Bool, Option, List}
use w8nc.Base.Int.{ℤ}
use w8nc.Base.Text.{Text, codes}

pub record Header : Type 0 where
  pub name : Text
  pub value_plain : Option Text
  pub value_encrypted : Option Text
  pub sensitive : Bool
  pub masked : Bool

pub record HeaderInput : Type 0 where
  pub name : Text
  pub value : Text
  pub sensitive : Option Bool
  pub masked : Option Bool

pub record HeaderView : Type 0 where
  pub name : Text
  pub value : Text
  pub sensitive : Bool
  pub masked : Bool

pub record ProxyConfig : Type 0 where
  pub enabled : Bool
  pub address : Text
  pub username : Text
  pub password : Text
  pub password_encrypted : Option Text
  pub password_set : Bool

-- DefaultNotificationTemplate
abbrev pub default_notification_template : Text
default_notification_template =
    codes
      "[{{state}}] {{method}} {{url}}\nCondition: {{condition_type}}\nStatus: {{status_code}}\nLength: {{response_length}}\nDuration: {{duration_ms}}ms\nChecked: {{checked_at}}"

pub record Tag : Type 0 where
  pub id : Text
  pub name : Text
  pub color : Text
  pub endpoint_count : ℕ
  pub created_at : ℕ
  pub updated_at : ℕ

-- A `json.RawMessage` as encoding/json reads it: `absent` is the empty message, and `other` is an
-- array, an object, a Boolean or a number that is no integer.
pub data RawMessage : Type 0 where
  absent null other : RawMessage
  str : Text → RawMessage
  int : ℤ → RawMessage

pub record Condition : Type 0 where
  pub type : Text
  pub value : RawMessage
  pub tolerance_bytes : Option ℤ

-- The values that the program writes into the column `state`.
pub data State : Type 0 where
  unknown live warning offline deactivated : State

-- The values that the program writes into the column `deactivated_reason`.
pub data Reason : Type 0 where
  manual time_limit_expired notify_once_condition_matched : Reason

-- A row of the table `endpoints`. Status codes and lengths are never negative.
pub record Endpoint : Type 0 where
  pub id : Text
  pub name : Option Text
  pub description : Text
  pub url : Text
  pub http_method : Text
  pub headers : List Header
  pub request_body_enabled : Bool
  pub request_body : Text
  pub proxy : ProxyConfig
  pub ping_interval_seconds : ℤ
  pub deactivate_after_seconds : Option ℤ
  pub notify_condition : Condition
  pub notify_once : Bool
  pub notification_template : Text
  pub screenshot_on_match : Bool
  pub active : Bool
  pub state : State
  pub created_at : ℕ
  pub updated_at : ℕ
  pub last_checked_at : Option ℕ
  pub next_run_at : Option ℕ
  pub deactivate_at : Option ℕ
  pub last_status_code : Option ℕ
  pub last_response_length : Option ℕ
  pub last_error : Option Text
  pub last_duration_ms : Option ℕ
  pub baseline_status_code : Option ℕ
  pub baseline_response_length : Option ℕ
  pub notified_at : Option ℕ
  pub deactivated_reason : Option Reason
  pub locked_until : Option ℕ
  pub version : ℕ

pub record PingResult : Type 0 where
  pub started_at : ℕ
  pub finished_at : ℕ
  pub status_code : Option ℕ
  pub response_headers : List (Text × List Text)
  pub response_length : Option ℕ
  pub duration_ms : ℕ
  pub error : Option Text
  pub truncated : Bool
  pub body : Text

pub record EndpointCheck : Type 0 where
  pub id : Text
  pub endpoint_id : Text
  pub started_at : ℕ
  pub finished_at : ℕ
  pub status_code : Option ℕ
  pub response_length : Option ℕ
  pub duration_ms : ℕ
  pub error : Option Text
  pub truncated : Bool
  pub condition_matched : Bool
  pub notification_event_id : Option Text
  pub created_at : ℕ

pub data AttemptStatus : Type 0 where
  pending capturing succeeded failed unsupported : AttemptStatus

pub record ScreenshotAttempt : Type 0 where
  pub id : Text
  pub endpoint_id : Text
  pub endpoint_check_id : Text
  pub notification_event_id : Option Text
  pub status : AttemptStatus
  pub error : Option Text
  pub image_path : Option Text
  pub image_content_type : Option Text
  pub image_size_bytes : Option ℕ
  pub capture_started_at : Option ℕ
  pub capture_finished_at : Option ℕ
  pub telegram_sent_at : Option ℕ
  pub created_at : ℕ
  pub updated_at : ℕ

pub data EventStatus : Type 0 where
  pending failed sent : EventStatus

pub record NotificationEvent : Type 0 where
  pub id : Text
  pub endpoint_id : Text
  pub status : EventStatus
  pub message : Text
  pub error : Option Text
  pub attempts : ℕ
  pub created_at : ℕ
  pub sent_at : Option ℕ
  pub updated_at : ℕ

pub record NotificationSettings : Type 0 where
  pub telegram_enabled : Bool
  pub telegram_api_key_encrypted : Option Text
  pub telegram_api_key_set : Bool
  pub telegram_chat_id : Option Text
  pub telegram_parse_mode : Text
  pub timezone : Text
  pub proxy : ProxyConfig
