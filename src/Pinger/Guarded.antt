-- ===== src/Pinger/Guarded.antt =====
-- What internal/pinger/pinger.go connects to while private targets are not allowed.
use w8nc.Base.{
  ◌≡◌, refl, ap, ◌∙◌, sym, ◌⊎◌, inl, inr, false, Option, none, some, List, [], ◌∷◌, any, Bool-cases,
}
use w8nc.Base.Result.{Result, ok, >>=-eq-ok, ok-injective}
use w8nc.Base.Text.{Text, codes}
use w8nc.Models.{Endpoint}
use w8nc.Validation.Address.{Ip, Url, is_private_host}
use w8nc.Pinger.{World, Pinger, Client, direct, proxied}
use w8nc.Pinger.Targets.{Target, is_private, first_public, resolved, public_target_ip, dial_address}
use w8nc.Pinger.Once.{Sent}

-- The host of the address resolves, to public addresses only; the first is `target`.
abbrev pub Resolves : World → Text → Target → Type 0
Resolves w address target =
    (ip : Ip) × (ips : List Ip) × (w.net.split_host_port address ≡ some (target.host, target.port))
    × (w.lookup target.host ≡ ok (ip ∷ ips))
    × (any is_private (ip ∷ ips) ≡ false)
    × (target.ip ≡ w.ip_string ip)

public_target_ip-Resolves :
    (w : World) (address : Text) (target : Target)
    → public_target_ip w address ≡ ok target
    → Resolves w address target
unfolding public_target_ip
public_target_ip-Resolves w address target h = split (w.net.split_host_port address) refl h
  where
    chosen :
        (host port : Text) (ips : List Ip)
        → w.net.split_host_port address ≡ some (host, port)
        → w.lookup host ≡ ok ips
        → first_public w host port ips ≡ ok target
        → Resolves w address target
    chosen host port [] parts found e = absurd (cc)
    chosen host port (ip ∷ ips) parts found e = elim (Bool-cases (any is_private (ip ∷ ips))) [
      | inl private ↦ absurd (cc (rw private at e))
      | inr public ↦
          let same = ok-injective (rw public at e) in
          (
            ip,
            ips,
            parts ∙ ap (λ t. some (t.host, t.port)) same,
            ap (λ t. w.lookup t.host) (sym same) ∙ found,
            public,
            ap (λ t. t.ip) (sym same),
          )
    ]

    split :
        (parts : Option (Text × Text))
        → w.net.split_host_port address ≡ parts
        → resolved w address parts ≡ ok target
        → Resolves w address target
    split none parts e = absurd (cc)
    split (some (host, port)) parts e =
        let (ips, found, first) = >>=-eq-ok (w.lookup host) (first_public w host port) e in
        chosen host port ips parts found first

-- The own dialer connects to the first public address only.
pub dial_address-Resolves :
    (w : World) (address dialed : Text)
    → dial_address w false address ≡ ok dialed
    → (target : Target) × Resolves w address target
      × (dialed ≡ w.net.join_host_port target.ip target.port)
unfolding dial_address
dial_address-Resolves w address dialed h =
    let (target, found, joined) = >>=-eq-ok (public_target_ip w address) _ h in
    (target, public_target_ip-Resolves w address target found, sym (ok-injective joined))

-- The host of the URL resolves to public addresses only.
abbrev pub IsPublicHost : World → Url → Type 0
IsPublicHost w url =
    (target : Target) × Resolves w (w.net.join_host_port url.hostname (codes "80")) target

-- What a client connects to for the URL: a proxy gets a host that resolves to public addresses only; the
-- own dialer connects to no address but a public one that the address it is given resolves to.
abbrev pub Connects : World → Pinger → Url → Client → Type 0
Connects w p url direct =
    (address dialed : Text)
    → dial_address w p.allow_private_targets address ≡ ok dialed
    → (target : Target) × Resolves w address target
      × (dialed ≡ w.net.join_host_port target.ip target.port)
Connects w p url (proxied address username password) = IsPublicHost w url

-- A request to a URL whose host is no private one, over a client that reaches public addresses only.
abbrev pub IsPublic : World → Pinger → Sent → Type 0
IsPublic w p (client, request) =
    (url : Url) × (w.net.parse_url request.url ≡ some url)
    × (is_private_host w.net url.hostname ≡ false)
    × Connects w p url client

module _ (w : World) (p : Pinger) (endpoint : Endpoint)
    (closed : p.allow_private_targets ≡ false) where
  -- What the checks of the target let through.
  abbrev IsChecked : Url → Type 0
  IsChecked url =
      (is_private_host w.net url.hostname ≡ false)
      × ((endpoint.proxy.enabled ≡ false) ⊎ IsPublicHost w url)
