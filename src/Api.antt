-- ===== src/Api.antt =====
-- internal/api/server.go: the routes, what the server makes of the JSON of an endpoint before it stores it,
-- and the handlers of one endpoint. The decoded input is an argument.
pub mod Proxies
pub mod Inputs
pub mod Routes
pub mod Endpoints
mod Sample
use w8nc.Base.{ℕ, Bool, true, false, ◌||◌, Option, none, some, List, any}
use w8nc.Base.Int.{ℤ}
use w8nc.Base.Result.{Result, ok, err}
use w8nc.Base.Text.{Text, codes, text_eq, to_lower}
use w8nc.Conditions
use w8nc.Models.{HeaderInput, ProxyConfig, Condition}
use w8nc.Models.Tags
use w8nc.Models.Tags.{TagInput}
use w8nc.Security
use w8nc.Store
use w8nc.Store.{Conn}
use w8nc.Validation.Address
use w8nc.Validation.Address.{Net}
use w8nc.Validation.Interval

pub record EndpointInput : Type 0 where
  pub name : Option Text
  pub description : Text
  pub url : Text
  pub http_method : Text
  pub headers : List HeaderInput
  pub request_body_enabled : Bool
  pub request_body : Text
  pub proxy : ProxyConfig
  pub ping_interval : Text
  pub deactivate_after : Text
  pub notify_condition : Condition
  pub notify_once : Option Bool
  pub notification_template : Text
  pub screenshot_on_match : Bool
  pub tags : List TagInput
  pub active : Bool

-- net/url and net, SecretBox.Encrypt where there is a box, and the number of runes of a text.
pub record World : Type 0 where
  pub net : Net
  pub encrypt : Option (Text → Option Text)
  pub count_runes : Text → ℕ

-- The parts of `config.Config` that are read; the intervals are durations.
pub record Config : Type 0 where
  pub allow_private_targets : Bool
  pub min_ping_interval : ℤ
  pub max_ping_interval : ℤ

-- Why an input is refused.
pub data Error : Type 0 where
  of_url : Address.Error → Error
  of_headers : Security.Error → Error
  of_interval : Interval.Error → Error
  of_condition : Conditions.Invalid → Error
  of_tags : Tags.Error → Error
  unsupported_method screenshot_needs_get body_too_large body_has_null : Error
  bad_deactivate_after description_too_long : Error
  header_needs_value : Text → Error
  key_required not_encrypted : Error
  username_too_long password_too_long username_required password_required : Error
  last_proxy_unavailable : Error

-- A check that may ask the store.
abbrev pub Check : Type 0 → Type 0
Check A = Conn → Result Error A × Conn

unfoldable pub and_then :
    {A B : Type 0} → (A → Check B) → Result Error A × Conn → Result Error B × Conn
and_then f (ok a, c) = f a c
and_then f (err e, c) = (err e, c)

infixl 5 ◌>>=◌
abbrev pub ◌>>=◌ : {A B : Type 0} → Check A → (A → Check B) → Check B
◌>>=◌ first next c = and_then next (first c)

abbrev pub pure : {A : Type 0} → A → Check A
pure a c = (ok a, c)

abbrev pub fail : {A : Type 0} → Error → Check A
fail e c = (err e, c)

-- A check of another part, under the server's error.
abbrev pub checked : {E A : Type 0} → (E → Error) → Result E A → Check A
checked f (ok a) = pure a
checked f (err e) = fail (f e)

-- `if test { return err }`
abbrev pub refuse_if : Bool → Error → Check (Unit {0})
refuse_if true e = fail e
refuse_if false e = pure tt

-- strings.EqualFold, for ASCII.
abbrev pub equal_fold : Text → Text → Bool
equal_fold a b = text_eq (to_lower a) (to_lower b)

abbrev pub mask : Text
mask = codes "********"

abbrev pub sealed_text : Option Text → Check Text
sealed_text none = fail not_encrypted
sealed_text (some text) = pure text

-- SecretBox.Encrypt of a box, and the error where there is none.
abbrev pub encrypted_by : Option (Text → Option Text) → Text → Check Text
encrypted_by none value = fail key_required
encrypted_by (some seal) value = sealed_text (seal value)

abbrev pub encrypted : World → Text → Check Text
encrypted w value = encrypted_by w.encrypt value
