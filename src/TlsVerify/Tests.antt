-- ===== src/TlsVerify/Tests.antt =====
-- Verification on concrete certificates, and the theorems at inputs that meet their hypotheses.
use w8nc.Base.{◌≡◌, refl, arith, true, false, none, some, [], ◌∷◌, leb, length, if◌then◌else◌}
use w8nc.Base.Assoc.{lookup, remove, put}
use w8nc.Base.Text.{codes, text_eq, has_prefix}
use w8nc.TlsVerify.{
  Certificate, unknown_authority, chain, no_chain, World, Cache, evict, cache_issuer, is_issuer_of,
  pick, issuer_from_url, fetch_from, fetch_issuer, repair, verify, WrapTransport, transport_for,
}
use w8nc.TlsVerify.Trust.{Accepted, verify-Accepted}
use w8nc.TlsVerify.Transports.{IsPinned, IsBounded, transport_for-IsPinned, cache_issuer-IsBounded}

tls : Unit {0}
unfolding evict cache_issuer is_issuer_of pick issuer_from_url fetch_from fetch_issuer repair verify
    transport_for lookup remove put text_eq has_prefix
tls = tt

abbrev leaf : Certificate
leaf = record {
  raw_subject = codes "leaf";
  raw_issuer = codes "ca";
  issuing_certificate_url = codes "ldap://x" ∷ codes "http://ca/ca.crt" ∷ [];
  not_before = 0;
  not_after = 100;
}

abbrev issuer : Certificate
issuer = record {
  raw_subject = codes "ca";
  raw_issuer = codes "root";
  issuing_certificate_url = [];
  not_before = 0;
  not_after = 100;
}

-- The chain is complete once there is an intermediate; a download gives the leaf and its issuer.
abbrev world : World
world = record {
  has_system_roots = true;
  leaf_verify = λ name intermediates certificate.
      if leb 1 (length intermediates) then none else some unknown_authority;
  check_signature_from = λ child certificate. true;
  download = λ url. some url;
  parse_certificates = λ body. leaf ∷ issuer ∷ [];
  now = 50;
  fetch_enabled = true;
}

abbrev empty : Cache
empty = record { entries = []; order = [] }

verifications :
    ((verify world (codes "a.b") (leaf ∷ []) empty).0 ≡ none)
    × ((verify (record world { fetch_enabled = false }) (codes "a.b") (leaf ∷ []) empty).0
        ≡ some (chain unknown_authority))
    × ((verify world (codes "a.b") [] empty).0 ≡ some no_chain)
    × ((verify world (codes "a.b") (leaf ∷ []) empty).1.order ≡ codes "http://ca/ca.crt" ∷ [])
unfolding tls
verifications = (refl, refl, refl, refl)

verify-Accepted_example : Accepted world (codes "a.b") (leaf ∷ [])
verify-Accepted_example = verify-Accepted world (codes "a.b") (leaf ∷ []) empty verifications.0

abbrev no_transports : WrapTransport
no_transports = record { hosts = []; order = [] }

no_transports-IsPinned : IsPinned no_transports
no_transports-IsPinned = record { bounded = omega arith; listed = tt; pinned = tt }

transport_for-IsPinned_example :
    ((transport_for (codes "a.b") no_transports).0.server_name ≡ codes "a.b")
    × IsPinned (transport_for (codes "a.b") no_transports).1
transport_for-IsPinned_example =
    transport_for-IsPinned (codes "a.b") no_transports no_transports-IsPinned

empty-IsBounded : IsBounded empty
empty-IsBounded = record { bounded = omega arith; listed = tt }

cache_issuer-IsBounded_example : IsBounded (cache_issuer (codes "http://ca") issuer empty)
cache_issuer-IsBounded_example =
    cache_issuer-IsBounded (codes "http://ca") issuer empty empty-IsBounded
