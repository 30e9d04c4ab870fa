-- ===== src/Pinger/Tests.antt =====
-- Pings in concrete worlds, and the theorems at inputs that meet their hypotheses.
use w8nc.Base.{ℕ, ◌≡◌, refl, true, false, none, some, [], ◌∷◌, ◌==◌, if◌then◌else◌, length}
use w8nc.Base.Assoc.{lookup}
use w8nc.Base.Decimal.{digits_value, parse_magnitude, parse_int}
use w8nc.Base.Int.{negsuc}
use w8nc.Base.Result.{ok, err}
use w8nc.Base.Text.{codes, text_eq, contains, has_prefix, has_suffix, trim_left, trim_space}
use w8nc.Models.{Endpoint}
use w8nc.Models.Sample.{sample}
use w8nc.Validation.Address.{v4, is_private_ip, trim_brackets_left, trim_brackets, is_private_host}
use w8nc.Pinger.{HttpResponse, World, Pinger, retryable_method, transient_ping_error}
use w8nc.Pinger.Decoding.{split_commas, decoder, decode_each, decoded_response_body}
use w8nc.Pinger.Targets.{public_target_ip, reject_private_target, redirect_policy}
use w8nc.Pinger.Once.{
  request_headers, proxy_password, client_for, prepared, exchange, with_content, read_response,
  ping_once,
}
use w8nc.Pinger.Retrying.{ping_from, ping, Outcome, ping-Outcome}
use w8nc.Pinger.Bounded.{IsBounded, ping-IsBounded}

pings : Unit {0}
unfolding lookup trim_left trim_space digits_value parse_magnitude parse_int text_eq contains
    has_prefix has_suffix is_private_ip trim_brackets_left trim_brackets is_private_host
    retryable_method transient_ping_error split_commas decoder decode_each decoded_response_body
    public_target_ip reject_private_target redirect_policy request_headers proxy_password client_for
    prepared exchange with_content read_response ping_once ping_from ping
pings = tt

abbrev answer : HttpResponse
answer = record {
  status_code = 200;
  headers = (codes "Content-Encoding", codes "gzip" ∷ []) ∷ [];
  content_length = negsuc 0;
  body = record { content = codes "abcdef"; failure = none };
}

-- Every host resolves to one public address, and gzip takes the first byte away.
abbrev world : World
world = record {
  net = record {
    parse_url = λ raw. some (record {
      scheme = codes "https";
      has_user = false;
      host = codes "a.b";
      hostname = codes "a.b";
      path = [];
      raw_query = [];
      fragment = [];
      rest = [];
    });
    url_string = λ url. url.host;
    parse_ip = λ text. none;
    split_host_port = λ address. some (address, codes "80");
    join_host_port = λ host port. host;
  };
  parse_failure = λ raw. raw;
  split_failure = λ address. address;
  lookup = λ host. ok (v4 93 184 216 34 ∷ []);
  ip_string = λ ip. codes "93.184.216.34";
  request_error = λ method url. none;
  send = λ client request. ok answer;
  decoders = record {
    gzip = λ body. ok (record body { content = codes "bcdef" });
    zlib = λ body. ok body;
    zstd = λ body. err (codes "no zstd");
    flate = λ body. body;
    brotli = λ body. body;
  };
  quote = λ text. text;
  finished = 9000000;
}

abbrev broken : World
broken = record world { send = λ client request. err (codes "read: I/O timeout") }

-- The first try fails.
abbrev worlds : ℕ → World
worlds attempt = if attempt == 1 then broken else world

abbrev pinger : Pinger
pinger = record { max_response_bytes = 3; allow_private_targets = false; secrets = none }

second_try :
    ((ping worlds pinger sample 0).body ≡ codes "bcd")
    × ((ping worlds pinger sample 0).truncated ≡ true)
    × ((ping worlds pinger sample 0).duration_ms ≡ 9)
unfolding pings
second_try = (refl, refl, refl)

-- A POST is not tried again.
one_try :
    (ping worlds pinger (record sample { http_method = codes "POST" }) 0).error
    ≡ some (codes "read: I/O timeout")
unfolding pings
one_try = refl

-- The addresses of the host are private.
private_redirect :
    redirect_policy (record world { lookup = λ host. ok (v4 10 0 0 1 ∷ []) }) false 1 (codes "a.b")
    ≡ err (codes "redirect to private target is blocked")
unfolding pings
private_redirect = refl

five_encodings :
    decoded_response_body world answer.body (codes "br,br,br,br,br")
    ≡ err (codes "too many response content encodings")
unfolding pings
five_encodings = refl

ping-Outcome_example :
    Outcome sample
      (ping_once broken pinger sample 0)
      (ping_once world pinger sample 0)
      (ping worlds pinger sample 0)
ping-Outcome_example = ping-Outcome worlds pinger sample 0

ping-IsBounded_example : IsBounded 3 (ping worlds pinger sample 0)
ping-IsBounded_example = ping-IsBounded worlds pinger sample 0

abbrev over_proxy : Endpoint
over_proxy = record sample { proxy = record sample.proxy { enabled = true } }

responds : (ping_once world pinger over_proxy 0).status_code ≡ some 200
unfolding pings
responds = refl

sends : length (exchange world pinger over_proxy).0 ≡ 1
unfolding pings
sends = refl
