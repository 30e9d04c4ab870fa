-- ===== src/Validation/Address.antt =====
-- internal/validation/url.go and proxy.go: the addresses that the program may ping, and those of proxies.
-- net/url and the parsing of addresses are functions in a record; the classes of addresses are those of
-- package net.
pub mod Ranges
mod Tests
use w8nc.Base.{
  ℕ, ◌/◌, ◌%◌, ◌<◌, Bool, true, false, not, ◌&&◌, ◌||◌, Option, none, some, List, [], ◌∷◌, ltb,
  ◌==◌, if◌then◌else◌, all,
}
use w8nc.Base.Int.{ℤ, pos, negsuc}
use w8nc.Base.Decimal.{parse_int, itoa}
use w8nc.Base.Result.{Result, ok, err}
use w8nc.Base.Text.{Text, codes, text_eq, is_empty, contains, has_suffix, trim_space, to_lower}
use mathlib.Core.List.{reverse}

-- A `net.IP` that is not nil: one for which To4 is not nil by its four bytes, else by its sixteen.
pub data Ip : Type 0 where
  v4 : ℕ → ℕ → ℕ → ℕ → Ip
  v6 : List ℕ → Ip

-- The parts of a `url.URL`; `rest` stands for all that is read only by `String`.
pub record Url : Type 0 where
  pub scheme : Text
  pub has_user : Bool
  pub host : Text
  pub hostname : Text
  pub path : Text
  pub raw_query : Text
  pub fragment : Text
  pub rest : Text

-- url.Parse and URL.String, net.ParseIP, net.SplitHostPort and net.JoinHostPort.
pub record Net : Type 0 where
  pub parse_url : Text → Option Url
  pub url_string : Url → Text
  pub parse_ip : Text → Option Ip
  pub split_host_port : Text → Option (Text × Text)
  pub join_host_port : Text → Text → Text

abbrev pub is_zero : ℕ → Bool
is_zero b = b == 0

-- The bytes of `net.IPv6loopback`.
abbrev pub loopback_v6 : List ℕ
loopback_v6 = 0 ∷ 0 ∷ 0 ∷ 0 ∷ 0 ∷ 0 ∷ 0 ∷ 0 ∷ 0 ∷ 0 ∷ 0 ∷ 0 ∷ 0 ∷ 0 ∷ 0 ∷ 1 ∷ []

abbrev pub is_loopback : Ip → Bool
is_loopback (v4 a b c d) = a == 127
is_loopback (v6 bytes) = text_eq bytes loopback_v6

abbrev pub is_link_local_multicast : Ip → Bool
is_link_local_multicast (v4 a b c d) = a == 224 && (b == 0 && c == 0)
is_link_local_multicast (v6 []) = false
is_link_local_multicast (v6 (a ∷ [])) = false
is_link_local_multicast (v6 (a ∷ b ∷ bytes)) = a == 255 && b % 16 == 2

abbrev pub is_link_local_unicast : Ip → Bool
is_link_local_unicast (v4 a b c d) = a == 169 && b == 254
is_link_local_unicast (v6 []) = false
is_link_local_unicast (v6 (a ∷ [])) = false
is_link_local_unicast (v6 (a ∷ b ∷ bytes)) = a == 254 && b / 64 == 2

-- IP.IsPrivate
abbrev pub is_rfc_private : Ip → Bool
is_rfc_private (v4 a b c d) = a == 10 || ((a == 172 && b / 16 == 1) || (a == 192 && b == 168))
is_rfc_private (v6 []) = false
is_rfc_private (v6 (a ∷ bytes)) = a / 2 == 126

abbrev pub is_unspecified : Ip → Bool
is_unspecified (v4 a b c d) = a == 0 && (b == 0 && (c == 0 && d == 0))
is_unspecified (v6 bytes) = all is_zero bytes

-- `ip.Equal(net.ParseIP("169.254.169.254"))`
abbrev pub is_metadata : Ip → Bool
is_metadata (v4 a b c d) = a == 169 && (b == 254 && (c == 169 && d == 254))
is_metadata (v6 bytes) = false

-- IsPrivateIP, where nil is no address.
unfoldable pub is_private_ip : Option Ip → Bool
is_private_ip none = true
is_private_ip (some ip) =
    is_loopback ip
    || (is_link_local_multicast ip
        || (is_link_local_unicast ip
            || (is_rfc_private ip || (is_unspecified ip || is_metadata ip))))

abbrev pub is_bracket : ℕ → Bool
is_bracket c = c == b'[' || c == b']'

unfoldable pub trim_brackets_left : Text → Text
trim_brackets_left [] = []
trim_brackets_left (c ∷ s) = let rest = trim_brackets_left s in if is_bracket c then rest else c ∷ s

-- strings.Trim(s, "[]")
unfoldable pub trim_brackets : Text → Text
unfolding trim_brackets_left
trim_brackets s = reverse (trim_brackets_left (reverse (trim_brackets_left s)))

-- The end of IsPrivateHost: a host that is no address is not private.
abbrev pub is_private_address : Option Ip → Bool
is_private_address none = false
is_private_address (some ip) = is_private_ip (some ip)

abbrev pub is_local_name : Text → Bool
is_local_name name = text_eq name (codes "localhost") || has_suffix name (codes ".localhost")

-- IsPrivateHost
unfoldable pub is_private_host : Net → Text → Bool
is_private_host net host =
    let normalized = trim_brackets (to_lower host) in
    is_local_name normalized || is_private_address (net.parse_ip normalized)

pub data Error : Type 0 where
  invalid_url bad_scheme no_host private_target : Error
  address_required invalid_address bad_proxy_scheme only_host_and_port no_host_port bad_port : Error

abbrev pub is_http : Text → Bool
is_http scheme = text_eq scheme (codes "http") || text_eq scheme (codes "https")

abbrev pub accepted_url : Net → Bool → Option Url → Result Error Text
accepted_url net allow_private none = err invalid_url
accepted_url net allow_private (some url) =
    if not (is_http url.scheme)
    then err bad_scheme
    else if is_empty url.hostname
    then err no_host
    else if not allow_private && is_private_host net url.hostname
    then err private_target
    else ok (net.url_string (record url { fragment = [] }))

-- NormalizeURL
unfoldable pub normalize_url : Net → Text → Bool → Result Error Text
normalize_url net raw allow_private =
    accepted_url net allow_private (net.parse_url (trim_space raw))

-- The host of an address with a scheme.
abbrev pub proxy_host : Option Url → Result Error Text
proxy_host none = err invalid_address
proxy_host (some url) =
    if not (text_eq url.scheme (codes "socks5"))
    then err bad_proxy_scheme
    else if url.has_user
        || not (is_empty url.path && (is_empty url.raw_query && is_empty url.fragment))
    then err only_host_and_port
    else ok url.host

abbrev pub joined_port : Net → Text → Option ℤ → Result Error Text
joined_port net host none = err bad_port
joined_port net host (some (negsuc n)) = err bad_port
joined_port net host (some (pos n)) =
    if ltb n 1 || ltb 65535 n then err bad_port else ok (net.join_host_port host (itoa (pos n)))

-- NormalizeSocks5ProxyAddress from SplitHostPort on.
abbrev pub checked_host : Net → Option (Text × Text) → Result Error Text
checked_host net none = err no_host_port
checked_host net (some (host, port)) =
    if is_empty (trim_space host)
    then err no_host_port
    else joined_port net (trim_space host) (parse_int port)

abbrev pub host_and_port : Net → Result Error Text → Result Error Text
host_and_port net (err e) = err e
host_and_port net (ok address) = checked_host net (net.split_host_port address)

-- NormalizeSocks5ProxyAddress
unfoldable pub normalize_socks5_proxy_address : Net → Text → Result Error Text
normalize_socks5_proxy_address net raw =
    let address = trim_space raw in
    if is_empty address
    then err address_required
    else host_and_port net
        (if contains address (codes "://") then proxy_host (net.parse_url address) else ok address)
