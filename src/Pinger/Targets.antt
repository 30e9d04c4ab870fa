-- ===== src/Pinger/Targets.antt =====
-- The targets that internal/pinger/pinger.go refuses to connect to.
use w8nc.Base.{ℕ, Bool, true, false, Option, none, some, List, [], ◌∷◌, leb, any, if◌then◌else◌}
use w8nc.Base.Result.{Result, ok, err, ◌>>=◌}
use w8nc.Base.Text.{Text, codes}
use w8nc.Validation.Address.{Ip, is_private_ip, is_private_host}
use w8nc.Pinger.{World}

-- What publicTargetIP returns.
pub record Target : Type 0 where
  pub host : Text
  pub port : Text
  pub ip : Text

abbrev pub is_private : Ip → Bool
is_private ip = is_private_ip (some ip)

abbrev pub first_public : World → Text → Text → List Ip → Result Text Target
first_public w host port [] = err (codes "target host did not resolve")
first_public w host port (ip ∷ ips) =
    if any is_private (ip ∷ ips)
    then err (codes "resolved private target is blocked")
    else ok (record { host = host; port = port; ip = w.ip_string ip })

abbrev pub resolved : World → Text → Option (Text × Text) → Result Text Target
resolved w address none = err (w.split_failure address)
resolved w address (some (host, port)) = w.lookup host >>= first_public w host port

-- publicTargetIP
unfoldable pub public_target_ip : World → Text → Result Text Target
public_target_ip w address = resolved w address (w.net.split_host_port address)

abbrev pub without_target : Result Text Target → Result Text (Unit {0})
without_target (ok target) = ok tt
without_target (err message) = err message

-- rejectPrivateTarget
unfoldable pub reject_private_target : World → Text → Result Text (Unit {0})
reject_private_target w host =
    if is_private_host w.net host
    then err (codes "private target is blocked")
    else without_target (public_target_ip w (w.net.join_host_port host (codes "80")))

-- The address that the DialContext of New connects to.
unfoldable pub dial_address : World → Bool → Text → Result Text Text
dial_address w true address = ok address
dial_address w false address =
    public_target_ip w address >>= λ target. ok (w.net.join_host_port target.ip target.port)

abbrev pub unless_rejected : Result Text (Unit {0}) → Result Text (Unit {0})
unless_rejected (ok _) = ok tt
unless_rejected (err message) = err (codes "redirect to private target is blocked")

-- redirectPolicy, of the number of requests so far and the host of the next.
unfoldable pub redirect_policy : World → Bool → ℕ → Text → Result Text (Unit {0})
redirect_policy w allow_private via host =
    if leb 10 via
    then err (codes "stopped after 10 redirects")
    else if allow_private
    then ok tt
    else unless_rejected (reject_private_target w host)
