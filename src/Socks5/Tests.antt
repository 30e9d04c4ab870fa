-- ===== src/Socks5/Tests.antt =====
-- The handshake with concrete proxies, and the theorem at an input that meets its hypotheses.
use w8nc.Base.{◌≡◌, refl, true, none, some, [], ◌∷◌, ◌++◌}
use w8nc.Base.Result.{err}
use w8nc.Base.Text.{Text, codes}
use w8nc.Base.Decimal.{parse_int, parse_magnitude, digits_value}
use w8nc.Socks5.{
  Net, Dialer, Wire, io, rejected_methods, connect_failed, followed_by, write, read_full,
  discard_socks_address, authenticate, connect_request, handshake,
}
use w8nc.Socks5.Reply.{Succeeds, Reply, handshake-Reply}

socks : Unit {0}
unfolding handshake followed_by write read_full discard_socks_address authenticate connect_request
    parse_int parse_magnitude digits_value
socks = tt

abbrev net : Net
net = record { split_host_port = λ target. some (target, codes "443"); parse_ip = λ host. none }

abbrev dialer : Dialer
dialer = record { username = codes "u"; password = codes "p" }

-- The proxy asks for the login, accepts it and grants the connection; two bytes of the target follow.
abbrev granting : Wire
granting = record {
  input = 5 ∷ 2 ∷ 1 ∷ 0 ∷ 5 ∷ 0 ∷ 0 ∷ 1 ∷ 1 ∷ 2 ∷ 3 ∷ 4 ∷ 0 ∷ 80 ∷ 7 ∷ 8 ∷ [];
  written = [];
  faults = [];
}

abbrev granted : Wire
granted = (handshake net dialer (codes "a.b") granting).1

granting-Succeeds : Succeeds (handshake net dialer (codes "a.b")) granting tt granted
unfolding socks
granting-Succeeds = refl

exchanges :
    (granted.input ≡ 7 ∷ 8 ∷ [])
    × (granted.written
        ≡ 5 ∷ 2 ∷ 0 ∷ 2 ∷ 1 ∷ 1 ∷ 117 ∷ 1 ∷ 112 ∷ 5 ∷ 1 ∷ 0 ∷ 3 ∷ 3 ∷ codes "a.b" ++ (1 ∷ 187 ∷ []))
    × ((handshake net dialer (codes "a.b") (record granting { input = 5 ∷ 255 ∷ [] })).0
        ≡ err rejected_methods)
    × ((handshake net dialer (codes "a.b") (record granting { input = 5 ∷ [] })).0 ≡ err io)
    × ((handshake net dialer (codes "a.b") (record granting { faults = true ∷ [] })).0 ≡ err io)
    × ((handshake net dialer
          (codes "a.b")
          (record granting { input = 5 ∷ 0 ∷ 5 ∷ 5 ∷ 0 ∷ 3 ∷ 1 ∷ 97 ∷ 0 ∷ 0 ∷ [] })).0
        ≡ err (connect_failed 5))
unfolding socks
exchanges = (refl, refl, refl, refl, refl, refl)

handshake-Reply_example : (reply : Text) × Reply reply × (granting.input ≡ reply ++ granted.input)
handshake-Reply_example =
    handshake-Reply net dialer (codes "a.b") granting granted granting-Succeeds
