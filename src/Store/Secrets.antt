-- ===== src/Store/Secrets.antt =====
-- LastProxyConfig and HasEncryptedSecrets of internal/db/db.go.
use w8nc.Base.{
  ℕ, Bool, false, not, ◌&&◌, ◌||◌, Option, none, some, List, [], ◌∷◌, ◌++◌, leb, any, filter, map,
  if◌then◌else◌,
}
use w8nc.Base.Result.{Result, ok, err}
use w8nc.Base.Sort.{sort_by}
use w8nc.Base.Text.{codes, is_empty}
use w8nc.Models.{Endpoint, Header, ProxyConfig}
use w8nc.Store.{Error, no_rows, SettingsRow, Op, query}
use w8nc.Store.Settings.{proxy_of, is_set}

-- A row of the UNION: a proxy and `updated_at`.
abbrev pub Candidate : Type 0
Candidate = ProxyConfig × ℕ

abbrev pub of_endpoint : Endpoint → Candidate
of_endpoint row = (row.proxy, row.updated_at)

abbrev pub of_settings : Option SettingsRow → List Candidate
of_settings none = []
of_settings (some row) = (proxy_of row, row.updated_at) ∷ []

-- `proxy_enabled=TRUE AND COALESCE(proxy_address, '') <> ''`
abbrev pub is_usable : Candidate → Bool
is_usable (proxy, at) = proxy.enabled && not (is_empty proxy.address)

-- ORDER BY updated_at DESC
abbrev pub is_newer : Candidate → Candidate → Bool
is_newer a b = leb b.1 a.1

abbrev pub first_proxy : List Candidate → Result Error ProxyConfig
first_proxy [] = err no_rows
first_proxy ((proxy, at) ∷ rows) = ok (record proxy {
  password = if is_set proxy.password_encrypted then codes "********" else [];
  password_set = is_set proxy.password_encrypted;
})

-- LastProxyConfig
unfoldable pub last_proxy_config : Op ProxyConfig
last_proxy_config = query (λ db. first_proxy (
    sort_by is_newer
      (filter is_usable (map of_endpoint db.endpoints ++ of_settings db.notification_settings))))

abbrev pub settings_hold_secret : Option SettingsRow → Bool
settings_hold_secret none = false
settings_hold_secret (some row) =
    is_set row.telegram_api_key_encrypted || is_set row.proxy_password_encrypted

abbrev pub header_holds_secret : Header → Bool
header_holds_secret header = is_set header.value_encrypted

abbrev pub endpoint_holds_secret : Endpoint → Bool
endpoint_holds_secret row =
    is_set row.proxy.password_encrypted || any header_holds_secret row.headers

-- HasEncryptedSecrets
unfoldable pub has_encrypted_secrets : Op Bool
has_encrypted_secrets = query (λ db.
    ok (settings_hold_secret db.notification_settings || any endpoint_holds_secret db.endpoints))
