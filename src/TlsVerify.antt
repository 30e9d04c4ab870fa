-- ===== src/TlsVerify.antt =====
-- internal/tlsverify/tlsverify.go: the verification of a chain with the repair of a missing
-- intermediate, the cache of issuers and the transports per host.
pub mod Trust
pub mod Transports
mod Tests
use w8nc.Base.{
  ℕ, zero, suc, ◌+◌, ◌-◌, Bool, true, false, not, ◌&&◌, ◌||◌, Option, none, some, List, [], ◌∷◌,
  ◌++◌, ltb, leb, if◌then◌else◌, length, take,
}
use w8nc.Base.Assoc.{lookup, remove, put}
use w8nc.Base.Text.{Text, codes, text_eq, has_prefix}

-- What the code reads of an `x509.Certificate`.
pub record Certificate : Type 0 where
  pub raw_subject : Text
  pub raw_issuer : Text
  pub issuing_certificate_url : List Text
  pub not_before : ℕ
  pub not_after : ℕ

-- The errors of `Certificate.Verify`.
pub data ChainError : Type 0 where
  unknown_authority other : ChainError

pub data Error : Type 0 where
  no_chain no_pool : Error
  chain : ChainError → Error

-- What the code calls: the system pool, `leaf.Verify` for a name and intermediates against it,
-- `CheckSignatureFrom`, the download of a URL, the certificates in what is downloaded; the clock, and
-- whether the repair is turned on.
pub record World : Type 0 where
  pub has_system_roots : Bool
  pub leaf_verify : Text → List Certificate → Certificate → Option ChainError
  pub check_signature_from : Certificate → Certificate → Bool
  pub download : Text → Option Text
  pub parse_certificates : Text → List Certificate
  pub now : ℕ
  pub fetch_enabled : Bool

-- `issuerCache`
pub record Cache : Type 0 where
  pub entries : List (Text × Certificate)
  pub order : List Text

-- The loop that makes room in a map with an order, down to fewer than `most` keys.
unfoldable pub evict : {V : Type 0} → ℕ → List Text → List (Text × V) → List Text × List (Text × V)
unfolding remove
evict most [] m = ([], m)
evict most (key ∷ order) m =
    let rest = evict most order (remove key m) in
    if leb most (length (key ∷ order)) then rest else (key ∷ order, m)

abbrev pub max_aia_cache_entries : ℕ
max_aia_cache_entries = 256

-- cacheIssuer
unfoldable pub cache_issuer : Text → Certificate → Cache → Cache
unfolding evict lookup put
cache_issuer url certificate cache = elim (lookup url cache.entries) [
  | some old ↦ cache
  | none ↦
      let (order, entries) = evict max_aia_cache_entries cache.order cache.entries in
      record { entries = put url certificate entries; order = order ++ url ∷ [] }
]

-- `issuerFreshnessGrace`, five minutes.
abbrev pub issuer_freshness_grace : ℕ
issuer_freshness_grace = 300000000000

-- isIssuerOf
unfoldable pub is_issuer_of : World → Certificate → Certificate → Bool
unfolding text_eq
is_issuer_of world certificate child =
    text_eq certificate.raw_subject child.raw_issuer
    && world.check_signature_from child certificate
    && not (ltb world.now (certificate.not_before - issuer_freshness_grace))
    && not (ltb (certificate.not_after + issuer_freshness_grace) world.now)

-- The first of the candidates that issued the child.
unfoldable pub pick : World → Certificate → List Certificate → Option Certificate
pick world child [] = none
pick world child (candidate ∷ candidates) =
    let rest = pick world child candidates in
    if is_issuer_of world candidate child then some candidate else rest

-- `cached != nil && isIssuerOf(cached, child)`
abbrev pub usable : World → Certificate → Option Certificate → Option Certificate
usable world child none = none
usable world child (some cached) = if is_issuer_of world cached child then some cached else none

abbrev pub picked : Text → Cache → Option Certificate → Option Certificate × Cache
picked url cache none = (none, cache)
picked url cache (some candidate) = (some candidate, cache_issuer url candidate cache)

abbrev pub downloaded :
    World → Text → Certificate → Cache → Option Text → Option Certificate × Cache
downloaded world url child cache none = (none, cache)
downloaded world url child cache (some body) =
    picked url cache (pick world child (world.parse_certificates body))

-- issuerFromURL
unfoldable pub issuer_from_url : World → Text → Certificate → Cache → Option Certificate × Cache
unfolding lookup pick
issuer_from_url world url child cache = elim (usable world child (lookup url cache.entries)) [
  | some cached ↦ (some cached, cache)
  | none ↦ downloaded world url child cache (world.download url)
]

abbrev pub is_http : Text → Bool
is_http url = has_prefix url (codes "http://") || has_prefix url (codes "https://")

-- The loop of fetchIssuer.
unfoldable pub fetch_from : World → Certificate → List Text → Cache → Option Certificate × Cache
unfolding issuer_from_url has_prefix
fetch_from world child [] cache = (none, cache)
fetch_from world child (url ∷ urls) cache = elim (is_http url) [
  | false ↦ fetch_from world child urls cache
  | true ↦
      let (found, cache') = issuer_from_url world url child cache in
      elim found [ some issuer ↦ (some issuer, cache') | none ↦ fetch_from world child urls cache' ]
]

-- fetchIssuer, with at most `maxAIAURLsPerCert` URLs.
unfoldable pub fetch_issuer : World → Certificate → Cache → Option Certificate × Cache
unfolding fetch_from
fetch_issuer world child cache = fetch_from world child (take 3 child.issuing_certificate_url) cache

-- The loop of Verify over the hops.
unfoldable pub repair :
    World
    → Text
    → Certificate
    → ChainError
    → ℕ
    → Certificate
    → List Certificate
    → Cache
    → Option Error × Cache
repair world name leaf chain_error zero current intermediates cache =
    (some (chain chain_error), cache)
repair world name leaf chain_error (suc hops) current intermediates cache =
    let (found, cache') = fetch_issuer world current cache in
    elim found [
      | none ↦ (some (chain chain_error), cache')
      | some issuer ↦ elim (world.leaf_verify name (intermediates ++ issuer ∷ []) leaf) [
        | none ↦ (none, cache')
        | some e ↦
            repair world name leaf chain_error hops issuer (intermediates ++ issuer ∷ []) cache'
      ]
    ]

-- The last certificate that the peer sent.
abbrev pub last_of : Certificate → List Certificate → Certificate
last_of leaf [] = leaf
last_of leaf (certificate ∷ certificates) = last_of certificate certificates

abbrev pub is_unknown_authority : ChainError → Bool
is_unknown_authority unknown_authority = true
is_unknown_authority other = false

abbrev pub max_aia_hops : ℕ
max_aia_hops = 4

-- Verify behind the first `verifyChain`.
abbrev pub after_chain :
    World → Text → Certificate → List Certificate → Option ChainError → Cache → Option Error × Cache
after_chain world name leaf intermediates none cache = (none, cache)
after_chain world name leaf intermediates (some e) cache =
    if not world.fetch_enabled || not (is_unknown_authority e)
    then (some (chain e), cache)
    else repair world name leaf e max_aia_hops (last_of leaf intermediates) intermediates cache

-- Verify, for the certificates of the peer; none is no error.
unfoldable pub verify : World → Text → List Certificate → Cache → Option Error × Cache
verify world name [] cache = (some no_chain, cache)
verify world name (leaf ∷ intermediates) cache =
    if not world.has_system_roots
    then (some no_pool, cache)
    else after_chain world name leaf intermediates (world.leaf_verify name intermediates leaf) cache

-- A transport, by the name that its TLS configuration is pinned to.
pub record Transport : Type 0 where
  pub server_name : Text

-- `wrapTransport`
pub record WrapTransport : Type 0 where
  pub hosts : List (Text × Transport)
  pub order : List Text

abbrev pub max_host_transports : ℕ
max_host_transports = 128

abbrev pub found_or_new : Text → WrapTransport → Option Transport → Transport × WrapTransport
found_or_new host w (some transport) = (transport, w)
found_or_new host w none =
    let (order, hosts) = evict max_host_transports w.order w.hosts in
    (
      record { server_name = host },
      record { hosts = put host (record { server_name = host }) hosts; order = order ++ host ∷ [] },
    )

-- transportFor
unfoldable pub transport_for : Text → WrapTransport → Transport × WrapTransport
unfolding evict lookup put
transport_for host w = found_or_new host w (lookup host w.hosts)
