-- ===== src/Socks5.antt =====
-- internal/socks5/dialer.go: the handshake with the proxy, over a connection that is a stream of bytes.
pub mod Reply
mod Tests
use w8nc.Base.{
  ℕ, zero, suc, ◌+◌, ◌/◌, ◌%◌, Bool, true, false, not, ◌||◌, Option, none, some, List, [], ◌∷◌,
  ◌++◌, ltb, leb, ◌==◌, if◌then◌else◌, length, take, drop,
}
use w8nc.Base.Int.{ℤ, pos, negsuc}
use w8nc.Base.Result.{Result, ok, err}
use w8nc.Base.Text.{Text, is_empty}
use w8nc.Base.Decimal.{parse_int}

pub data Error : Type 0 where
  io invalid_greeting rejected_methods unsupported_method credentials_too_long : Error
  authentication_failed invalid_connect unsupported_address : Error
  connect_failed : ℕ → Error

-- `net.IP`, by the form that `To4` and `To16` tell.
pub data Ip : Type 0 where
  v4 v6 : Text → Ip

-- `net.SplitHostPort` and `net.ParseIP`.
pub record Net : Type 0 where
  pub split_host_port : Text → Option (Text × Text)
  pub parse_ip : Text → Option Ip

-- `Dialer`, without what DialContext alone reads.
pub record Dialer : Type 0 where
  pub username : Text
  pub password : Text

-- What the peer will send, what was sent to it, and for each write to come whether it fails.
pub record Wire : Type 0 where
  pub input : Text
  pub written : Text
  pub faults : List Bool

abbrev pub Io : Type 0 → Type 0
Io A = Wire → Result Error A × Wire

abbrev pub stop : {A : Type 0} → Error → Io A
stop e w = (err e, w)

abbrev pub done : Io (Unit {0})
done w = (ok tt, w)

-- `if err != nil { return err }`
unfoldable pub followed_by :
    {A B : Type 0} → Result Error A × Wire → (A → Io B) → Result Error B × Wire
followed_by (err e, w) next = (err e, w)
followed_by (ok a, w) next = next a w

abbrev pub wrote : Text → Wire → List Bool → Result Error (Unit {0}) × Wire
wrote bytes w [] = (ok tt, record w { written = w.written ++ bytes })
wrote bytes w (true ∷ faults) = (err io, record w { faults = faults })
wrote bytes w (false ∷ faults) = (ok tt, record w { written = w.written ++ bytes; faults = faults })

-- conn.Write
unfoldable pub write : Text → Io (Unit {0})
write bytes w = wrote bytes w w.faults

-- io.ReadFull, and io.CopyN from the connection, of n bytes.
unfoldable pub read_full : ℕ → Io Text
read_full n w =
    if leb n (length w.input)
    then (ok (take n w.input), record w { input = drop n w.input })
    else (err io, record w { input = [] })

-- `response[i]`
abbrev pub byte_at : ℕ → Text → ℕ
byte_at i [] = 0
byte_at zero (c ∷ s) = c
byte_at (suc i) (c ∷ s) = byte_at i s

-- discardSocksAddress
unfoldable pub discard_socks_address : ℕ → Io (Unit {0})
unfolding read_full followed_by
discard_socks_address atyp w =
    if atyp == 1
    then followed_by (read_full 6 w) (λ _. done)
    else if atyp == 4
    then followed_by (read_full 18 w) (λ _. done)
    else if atyp == 3
    then followed_by (read_full 1 w)
        (λ size w'. followed_by (read_full (byte_at 0 size + 2) w') (λ _. done))
    else stop unsupported_address w

-- The request of authenticate.
abbrev pub credentials : Dialer → Text
credentials d = 1 ∷ length d.username ∷ d.username ++ (length d.password ∷ d.password)

abbrev pub authenticated : Text → Io (Unit {0})
authenticated response w =
    if not (byte_at 0 response == 1) || not (byte_at 1 response == 0)
    then stop authentication_failed w
    else done w

-- authenticate
unfoldable pub authenticate : Dialer → Io (Unit {0})
unfolding followed_by write read_full
authenticate d w =
    if ltb 255 (length d.username) || ltb 255 (length d.password)
    then stop credentials_too_long w
    else followed_by (write (credentials d) w)
        (λ _ w1. followed_by (read_full 2 w1) (λ response w2. authenticated response w2))

-- `port < 0 || port > 65535` sets it to 0, as does an error.
abbrev pub port_of : Option ℤ → ℕ
port_of none = 0
port_of (some (negsuc n)) = 0
port_of (some (pos n)) = if ltb 65535 n then 0 else n

abbrev pub address_of : Text → Option Ip → Text
address_of host (some (v4 bytes)) = 1 ∷ bytes
address_of host (some (v6 bytes)) = 4 ∷ bytes
address_of host none = 3 ∷ length (take 255 host) ∷ take 255 host

abbrev pub request_for : Net → Option (Text × Text) → Text
request_for net none = 5 ∷ 1 ∷ 0 ∷ 3 ∷ 0 ∷ 0 ∷ 0 ∷ []
request_for net (some (host, port_text)) =
    let port = port_of (parse_int port_text) in
    5 ∷ 1 ∷ 0 ∷ address_of host (net.parse_ip host) ++ (port / 256 ∷ port % 256 ∷ [])

-- connectRequest
unfoldable pub connect_request : Net → Text → Text
unfolding parse_int
connect_request net target = request_for net (net.split_host_port target)

-- `methods`, behind their number.
abbrev pub greeting : Dialer → Text
greeting d = if is_empty d.username then 5 ∷ 1 ∷ 0 ∷ [] else 5 ∷ 2 ∷ 0 ∷ 2 ∷ []

-- The `switch` on the method.
abbrev pub negotiate : Dialer → Text → Io (Unit {0})
negotiate d response w =
    if not (byte_at 0 response == 5)
    then stop invalid_greeting w
    else if byte_at 1 response == 0
    then done w
    else if byte_at 1 response == 2
    then authenticate d w
    else if byte_at 1 response == 255
    then stop rejected_methods w
    else stop unsupported_method w

abbrev pub connected : Text → Io (Unit {0})
connected header w =
    if not (byte_at 1 header == 0) then stop (connect_failed (byte_at 1 header)) w else done w

abbrev pub check_header : Text → Io (Unit {0})
check_header header w =
    if not (byte_at 0 header == 5)
    then stop invalid_connect w
    else followed_by (discard_socks_address (byte_at 3 header) w) (λ _. connected header)

-- handshake
unfoldable pub handshake : Net → Dialer → Text → Io (Unit {0})
unfolding authenticate discard_socks_address connect_request
handshake net d target w = followed_by (write (greeting d) w) (λ _ w1.
    followed_by (read_full 2 w1) (λ response w2. followed_by (negotiate d response w2) (λ _ w3.
      followed_by (write (connect_request net target) w3)
        (λ _ w4. followed_by (read_full 4 w4) (λ header w5. check_header header w5)))))
