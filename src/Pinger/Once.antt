-- ===== src/Pinger/Once.antt =====
-- pingOnce of internal/pinger/pinger.go.
use w8nc.Base.{
  ℕ, suc, ◌-◌, ◌/◌, true, false, not, ◌&&◌, ◌||◌, Option, none, some, List, [], ◌∷◌, ◌++◌, ltb, leb,
  ◌==◌, if◌then◌else◌, length, take,
}
use w8nc.Base.Assoc.{lookup}
use w8nc.Base.Decimal.{parse_int}
use w8nc.Base.Int.{ℤ, pos, negsuc}
use w8nc.Base.Result.{Result, ok, err, ◌>>=◌}
use w8nc.Base.Text.{Text, codes, text_eq, is_empty}
use w8nc.Conditions.Template.{join}
use w8nc.Models.{Endpoint, Header, PingResult, ProxyConfig}
use w8nc.Validation.Address.{Url, is_private_host}
use w8nc.Pinger.{Stream, HttpResponse, HttpRequest, Client, direct, proxied, World, Pinger}
use w8nc.Pinger.Decoding.{decoded_response_body}
use w8nc.Pinger.Targets.{reject_private_target}

abbrev pub empty_result : ℕ → PingResult
empty_result started = record {
  started_at = started;
  finished_at = 0;
  status_code = none;
  response_headers = [];
  response_length = none;
  duration_ms = 0;
  error = none;
  truncated = false;
  body = [];
}

abbrev pub at_end : World → PingResult → PingResult
at_end w result = record result {
  finished_at = w.finished;
  duration_ms = (w.finished - result.started_at) / 1000000;
}

-- finishError
abbrev pub finish_error : World → PingResult → Text → PingResult
finish_error w result message = record (at_end w result) { error = some message }

abbrev pub undecryptable : World → Text → Text
undecryptable w name = codes "sensitive header " ++ (w.quote name ++ codes " cannot be decrypted")

abbrev pub or_message : Text → Option Text → Result Text Text
or_message message none = err message
or_message message (some value) = ok value

abbrev pub decrypt : Text → Option (Text → Option Text) → Option Text → Result Text Text
decrypt message secrets none = err message
decrypt message none (some value) = err message
decrypt message (some open_box) (some value) = or_message message (open_box value)

abbrev pub plain : Option Text → Text
plain none = []
plain (some value) = value

abbrev pub header_value : World → Pinger → Header → Result Text Text
header_value w p header =
    if header.sensitive
    then decrypt (undecryptable w header.name) p.secrets header.value_encrypted
    else ok (plain header.value_plain)

-- The loop over the headers.
unfoldable pub request_headers : World → Pinger → List Header → Result Text (List (Text × Text))
request_headers w p [] = ok []
request_headers w p (header ∷ headers) = do
  value ← header_value w p header
  rest ← request_headers w p headers
  ok ((header.name, value) ∷ rest)

-- proxyPassword
unfoldable pub proxy_password : Pinger → ProxyConfig → Result Text Text
proxy_password p proxy =
    if is_empty proxy.username
    then ok []
    else if not (is_empty proxy.password) && not (text_eq proxy.password (codes "********"))
    then ok proxy.password
    else if is_empty (plain proxy.password_encrypted)
    then err (codes "SOCKS5 proxy password is not configured")
    else decrypt (codes "SOCKS5 proxy password cannot be decrypted") p.secrets
        proxy.password_encrypted

-- clientFor
unfoldable pub client_for : Pinger → Endpoint → Result Text Client
client_for p endpoint =
    if not endpoint.proxy.enabled
    then ok direct
    else (proxy_password p endpoint.proxy >>= λ password.
        ok (proxied endpoint.proxy.address endpoint.proxy.username password))

-- The checks of the target before a request is made.
abbrev pub check_host : World → Pinger → Endpoint → Option Url → Result Text (Unit {0})
check_host w p endpoint none = err (w.parse_failure endpoint.url)
check_host w p endpoint (some url) =
    if not p.allow_private_targets && is_private_host w.net url.hostname
    then err (codes "private target is blocked")
    else if endpoint.proxy.enabled && not p.allow_private_targets
    then reject_private_target w url.hostname
    else ok tt

abbrev pub accepted : Option Text → Result Text (Unit {0})
accepted none = ok tt
accepted (some message) = err message

abbrev pub body_of : Endpoint → Option Text
body_of endpoint = if endpoint.request_body_enabled then some endpoint.request_body else none

-- A request that a client is given to do.
abbrev pub Sent : Type 0
Sent = Client × HttpRequest

-- pingOnce up to client.Do.
unfoldable pub prepared : World → Pinger → Endpoint → Result Text Sent
prepared w p endpoint = do
  _ ← check_host w p endpoint (w.net.parse_url endpoint.url)
  _ ← accepted (w.request_error endpoint.http_method endpoint.url)
  headers ← request_headers w p endpoint.headers
  client ← client_for p endpoint
  ok (
    client,
    record {
      method = endpoint.http_method;
      url = endpoint.url;
      headers = headers;
      body = body_of endpoint;
    },
  )

-- client.Do: the requests sent, and the response.
abbrev pub do_request : World → Result Text Sent → List Sent × Result Text HttpResponse
do_request w (err message) = ([], err message)
do_request w (ok (client, request)) = ((client, request) ∷ [], w.send client request)

-- pingOnce up to the response, with the requests sent so far.
unfoldable pub exchange : World → Pinger → Endpoint → List Sent × Result Text HttpResponse
exchange w p endpoint = do_request w (prepared w p endpoint)

-- Header.Values and Header.Get; the names in a response are canonical.
abbrev pub values_of : Option (List Text) → List Text
values_of none = []
values_of (some values) = values

abbrev pub first_of : List Text → Text
first_of [] = []
first_of (value ∷ values) = value

abbrev pub header_values : Text → HttpResponse → List Text
header_values name response = values_of (lookup name response.headers)

abbrev pub parsed_length : Option ℤ → ℕ
parsed_length (some (pos n)) = n
parsed_length (some (negsuc n)) = 0
parsed_length none = 0

-- The length of the answer to HEAD.
abbrev pub head_length : ℤ → Text → ℕ
head_length (pos n) raw = n
head_length (negsuc n) raw = parsed_length (parse_int raw)

-- io.ReadAll of io.LimitReader: an error behind the limit is not met.
abbrev pub read_failure : Option Text → Text → Result Text Text
read_failure none content = ok content
read_failure (some message) content = err message

abbrev pub read_limited : ℕ → Stream → Result Text Text
read_limited limit body =
    if leb limit (length body.content)
    then ok (take limit body.content)
    else read_failure body.failure body.content

abbrev pub warning : Text
warning = codes "response body exceeded max bytes and was truncated"

-- The end of pingOnce, on what was read.
unfoldable pub with_content : World → ℕ → PingResult → Result Text Text → PingResult
with_content w limit result (err message) = finish_error w result message
with_content w limit result (ok content) =
    if ltb limit (length content)
    then at_end w (record result {
      truncated = true;
      error = some warning;
      body = take limit content;
      response_length = some limit;
    })
    else at_end w (record result { body = content; response_length = some (length content) })

-- 204 and 304 have no body to decode.
abbrev pub decoded : World → HttpResponse → Result Text Stream
decoded w response =
    if response.status_code == 204 || response.status_code == 304
    then ok response.body
    else decoded_response_body w response.body
        (join (codes ",") (header_values (codes "Content-Encoding") response))

abbrev pub responded : ℕ → HttpResponse → PingResult
responded started response = record (empty_result started) {
  status_code = some response.status_code;
  response_headers = response.headers;
}

unfoldable pub read_response : World → Pinger → Endpoint → ℕ → HttpResponse → PingResult
read_response w p endpoint started response =
    if text_eq endpoint.http_method (codes "HEAD")
    then at_end w (record (responded started response) {
      response_length = some (
          head_length response.content_length
            (first_of (header_values (codes "Content-Length") response)));
    })
    else with_content w p.max_response_bytes (responded started response)
        (decoded w response >>= read_limited (suc p.max_response_bytes))

abbrev pub finished_exchange : World → Pinger → Endpoint → ℕ → Result Text HttpResponse → PingResult
finished_exchange w p endpoint started (err message) = finish_error w (empty_result started) message
finished_exchange w p endpoint started (ok response) = read_response w p endpoint started response

-- pingOnce
unfoldable pub ping_once : World → Pinger → Endpoint → ℕ → PingResult
ping_once w p endpoint started = finished_exchange w p endpoint started (exchange w p endpoint).1
