-- ===== src/Api/Proxies.antt =====
-- The proxies that internal/api/server.go takes from an input.
use w8nc.Base.{
  Bool, true, false, not, ◌&&◌, ◌||◌, Option, none, some, [], ltb, if◌then◌else◌, length,
}
use w8nc.Base.Result.{Result, ok, err}
use w8nc.Base.Text.{Text, text_eq, is_empty, trim_space}
use w8nc.Models.{ProxyConfig}
use w8nc.Store
use w8nc.Store.{Conn}
use w8nc.Store.Secrets.{last_proxy_config}
use w8nc.Validation.Address.{normalize_socks5_proxy_address}
use w8nc.Api.{
  World, Error, of_url, username_too_long, password_too_long, username_required, password_required,
  last_proxy_unavailable, Check, ◌>>=◌, pure, fail, checked, refuse_if, equal_fold, mask, encrypted,
}

-- `models.ProxyConfig{}`
abbrev pub no_proxy : ProxyConfig
no_proxy = record {
  enabled = false;
  address = [];
  username = [];
  password = [];
  password_encrypted = none;
  password_set = false;
}

-- normalizedProxy of an input that is enabled.
abbrev pub enabled_proxy : World → ProxyConfig → Check ProxyConfig
enabled_proxy w input = do
  address ← checked of_url (normalize_socks5_proxy_address w.net input.address)
  _ ← refuse_if (ltb 255 (length (trim_space input.username))) username_too_long
  _ ← refuse_if (ltb 255 (length input.password)) password_too_long
  pure (record no_proxy { enabled = true; address = address; username = trim_space input.username })

-- normalizedProxy
unfoldable pub normalized_proxy : World → ProxyConfig → Check ProxyConfig
normalized_proxy w input = elim input.enabled [
  | true ↦ enabled_proxy w input
  | false ↦ pure no_proxy
]

-- sameProxyIdentity
abbrev pub same_proxy_identity : ProxyConfig → ProxyConfig → Bool
same_proxy_identity a b =
    equal_fold (trim_space a.address) (trim_space b.address)
    && text_eq (trim_space a.username) (trim_space b.username)

abbrev pub if_same : ProxyConfig → ProxyConfig → Option Text
if_same proxy last = if same_proxy_identity last proxy then last.password_encrypted else none

abbrev pub last_found :
    ProxyConfig → Result Store.Error ProxyConfig × Conn → Result Error (Option Text) × Conn
last_found proxy (ok last, c) = (ok (if_same proxy last), c)
last_found proxy (err Store.Error.no_rows, c) = (ok none, c)
last_found proxy (err Store.Error.invalid_state, c) = (err last_proxy_unavailable, c)
last_found proxy (err Store.Error.failed, c) = (err last_proxy_unavailable, c)
last_found proxy (err (Store.Error.bad_tags e), c) = (err last_proxy_unavailable, c)

-- lastProxyPassword: the encrypted password, the only part of the copy that the callers read.
unfoldable pub last_proxy_password : ProxyConfig → Check (Option Text)
last_proxy_password proxy c = last_found proxy (last_proxy_config c)

abbrev pub with_password : Text → ProxyConfig → ProxyConfig
with_password secret proxy = record proxy {
  password_encrypted = some secret;
  password_set = true;
  password = mask;
}

-- `password == "" || password == "********"`
abbrev pub is_unchanged : Text → Bool
is_unchanged password = is_empty password || text_eq password mask

-- A password without a user name.
abbrev pub lone_password : Text → Bool
lone_password password = not (is_empty (trim_space password)) && not (text_eq password mask)

abbrev pub copied : ProxyConfig → Option Text → Check ProxyConfig
copied proxy none = fail password_required
copied proxy (some secret) = pure (with_password secret proxy)

-- The password of the last proxy, if the input says that it has one.
abbrev pub from_last : ProxyConfig → Bool → Check ProxyConfig
from_last proxy false = fail password_required
from_last proxy true = last_proxy_password proxy >>= copied proxy

abbrev pub existing_secret : Option ProxyConfig → Option Text
existing_secret none = none
existing_secret (some proxy) = proxy.password_encrypted

abbrev pub not_kept : Check ProxyConfig → Check (ProxyConfig × Bool)
not_kept check = do proxy ← check; pure (proxy, false)

abbrev pub kept_or_last : ProxyConfig → ProxyConfig → Option Text → Check (ProxyConfig × Bool)
kept_or_last input proxy (some secret) = pure (with_password secret proxy, true)
kept_or_last input proxy none = not_kept (from_last proxy input.password_set)

abbrev pub sealed : World → ProxyConfig → ProxyConfig → Check ProxyConfig
sealed w input proxy = do secret ← encrypted w input.password; pure (with_password secret proxy)

-- prepareStoredProxy behind normalizedProxy.
unfoldable pub stored_from :
    World → ProxyConfig → Option ProxyConfig → ProxyConfig → Check (ProxyConfig × Bool)
stored_from w input existing proxy =
    if not proxy.enabled
    then pure (proxy, false)
    else if is_empty proxy.username
    then (do _ ← refuse_if (lone_password input.password) username_required; pure (proxy, false))
    else if is_unchanged input.password
    then kept_or_last input proxy (existing_secret existing)
    else not_kept (sealed w input proxy)

-- prepareStoredProxy: the proxy, and whether the stored password is kept.
unfoldable pub prepare_stored_proxy :
    World → ProxyConfig → Option ProxyConfig → Check (ProxyConfig × Bool)
prepare_stored_proxy w input existing = do
  proxy ← normalized_proxy w input
  stored_from w input existing proxy

-- runtimeProxy behind normalizedProxy.
unfoldable pub runtime_from : ProxyConfig → ProxyConfig → Check ProxyConfig
runtime_from input proxy =
    if not proxy.enabled
    then pure proxy
    else if is_empty proxy.username
    then (do _ ← refuse_if (lone_password input.password) username_required; pure proxy)
    else if is_unchanged input.password
    then from_last proxy input.password_set
    else pure (record proxy { password = input.password; password_set = true })

-- runtimeProxy
unfoldable pub runtime_proxy : World → ProxyConfig → Check ProxyConfig
runtime_proxy w input = do proxy ← normalized_proxy w input; runtime_from input proxy
