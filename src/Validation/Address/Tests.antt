-- ===== src/Validation/Address/Tests.antt =====
-- Addresses of hosts and proxies, and the theorem at an address that meets its hypotheses.
use w8nc.Base.{◌≡◌, refl, true, false, none, some, [], any, arith}
use w8nc.Base.Decimal.{digits, print_ℕ, itoa, digits_value, parse_magnitude, parse_int}
use w8nc.Base.Result.{ok, err}
use w8nc.Base.Text.{codes, text_eq, contains, has_prefix, has_suffix, trim_left, trim_space}
use w8nc.Validation.Address.{
  v4, Net, private_target, bad_port, is_private_ip, trim_brackets_left, trim_brackets,
  is_private_host, normalize_url, normalize_socks5_proxy_address,
}
use w8nc.Validation.Address.Ranges.{number, within, refused, is_private_ip_ranges}

addresses : Unit {0}
unfolding text_eq contains has_prefix has_suffix trim_left trim_space digits print_ℕ itoa
    digits_value parse_magnitude parse_int is_private_ip trim_brackets_left trim_brackets
    is_private_host normalize_url normalize_socks5_proxy_address
addresses = tt

-- One URL is parsed; every host has the port 1080.
abbrev net : Net
net = record {
  parse_url = λ raw. some (record {
    scheme = codes "http";
    has_user = false;
    host = raw;
    hostname = raw;
    path = [];
    raw_query = [];
    fragment = codes "top";
    rest = [];
  });
  url_string = λ url. url.hostname;
  parse_ip = λ text. none;
  split_host_port = λ address. some (address, codes "1080");
  join_host_port = λ host port. host;
}

local_hosts :
    (is_private_host net (codes "LOCALHOST") ≡ true)
    × (is_private_host net (codes "a.localhost") ≡ true)
    × (is_private_host net (codes "example.com") ≡ false)
unfolding addresses
local_hosts = (refl, refl, refl)

urls :
    (normalize_url net (codes " example.com ") false ≡ ok (codes "example.com"))
    × (normalize_url net (codes "localhost") false ≡ err private_target)
    × (normalize_url net (codes "localhost") true ≡ ok (codes "localhost"))
unfolding addresses
urls = (refl, refl, refl)

proxies :
    (normalize_socks5_proxy_address net (codes " proxy ") ≡ ok (codes "proxy"))
    × (normalize_socks5_proxy_address
          (record net { split_host_port = λ address. some (address, codes "65536") })
          (codes "proxy")
        ≡ err bad_port)
unfolding addresses
proxies = (refl, refl)

is_private_ip_ranges_example :
    is_private_ip (some (v4 172 31 0 9)) ≡ any (within (number 172 31 0 9)) refused
is_private_ip_ranges_example =
    is_private_ip_ranges 172 31 0 9 (omega arith) (omega arith) (omega arith) (omega arith)
