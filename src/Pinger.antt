-- ===== src/Pinger.antt =====
-- internal/pinger/pinger.go: one ping of an endpoint, and the second try. What the HTTP client, the resolver,
-- the secrets and the decoders answer during a try is a record of functions; an error is its message.
pub mod Decoding
pub mod Targets
pub mod Once
pub mod Retrying
pub mod Bounded
pub mod Guarded
mod Tests
use w8nc.Base.{ℕ, ◌+◌, Bool, true, false, Option, none, some, List, [], ◌∷◌, ◌||◌}
use w8nc.Base.Int.{ℤ}
use w8nc.Base.Result.{Result, ok, err}
use w8nc.Base.Text.{Text, codes, text_eq, contains, to_lower, to_upper}
use w8nc.Models.{PingResult}
use w8nc.Validation.Address.{Net, Ip}

-- What is read of a body, and the error at its end if it ends with one.
pub record Stream : Type 0 where
  pub content : Text
  pub failure : Option Text

-- A `http.Response`; `content_length` is -1 where it is not known.
pub record HttpResponse : Type 0 where
  pub status_code : ℕ
  pub headers : List (Text × List Text)
  pub content_length : ℤ
  pub body : Stream

-- The dialer of the client: the own one, or that of a proxy.
pub data Client : Type 0 where
  direct : Client
  proxied : Text → Text → Text → Client

-- The headers are the calls of Header.Set, in their order.
pub record HttpRequest : Type 0 where
  pub method : Text
  pub url : Text
  pub headers : List (Text × Text)
  pub body : Option Text

-- The readers of packages compress/gzip, zlib and flate, brotli and zstd.
pub record Decoders : Type 0 where
  pub gzip : Stream → Result Text Stream
  pub zlib : Stream → Result Text Stream
  pub zstd : Stream → Result Text Stream
  pub flate : Stream → Stream
  pub brotli : Stream → Stream

-- `net`, and the messages of url.Parse and net.SplitHostPort when they fail; LookupIPAddr; http.NewRequest, which checks the method and the URL;
-- Client.Do; the text of an address; `%q`; the time when the try is over.
pub record World : Type 0 where
  pub net : Net
  pub parse_failure : Text → Text
  pub split_failure : Text → Text
  pub lookup : Text → Result Text (List Ip)
  pub ip_string : Ip → Text
  pub request_error : Text → Text → Option Text
  pub send : Client → HttpRequest → Result Text HttpResponse
  pub decoders : Decoders
  pub quote : Text → Text
  pub finished : ℕ

-- `Pinger`; `secrets` is SecretBox.Decrypt, or none where there is no box.
pub record Pinger : Type 0 where
  pub max_response_bytes : ℕ
  pub allow_private_targets : Bool
  pub secrets : Option (Text → Option Text)

-- retryableMethod
unfoldable pub retryable_method : Text → Bool
unfolding text_eq
retryable_method method =
    text_eq (to_upper method) (codes "GET")
    || (text_eq (to_upper method) (codes "HEAD") || text_eq (to_upper method) (codes "OPTIONS"))

-- transientPingError
unfoldable pub transient_ping_error : Text → Bool
unfolding contains
transient_ping_error message =
    let lowered = to_lower message in
    contains lowered (codes "context deadline exceeded")
    || (contains lowered (codes "client.timeout")
        || (contains lowered (codes "i/o timeout")
            || (contains lowered (codes "tls handshake timeout")
                || (contains lowered (codes "connection reset by peer")
                    || (contains lowered (codes "unexpected eof")
                        || contains lowered (codes "read: connection timed out"))))))
