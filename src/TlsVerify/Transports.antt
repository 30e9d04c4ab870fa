-- ===== src/TlsVerify/Transports.antt =====
-- The two bounded maps of internal/tlsverify/tlsverify.go: transports per host, and the issuer cache.
use w8nc.Base.{
  ℕ, ◌≤◌, ◌<◌, ◌≡◌, refl, subst, inl, inr, Bool, true, Option, none, some, List, [], ◌∷◌, ◌++◌,
  arith, leb, length, length-append, any, All, Bool-cases, Option-cases,
}
use w8nc.Base.Assoc.{lookup, remove, put}
use w8nc.Base.Text.{Text, text_eq, text_eq_iff, text_eq_refl}
use w8nc.TlsVerify.{
  Certificate, Cache, evict, cache_issuer, max_aia_cache_entries, Transport, WrapTransport,
  max_host_transports, found_or_new, transport_for,
}

-- Some key in the order is this one.
abbrev pub is_listed : List Text → Text → Bool
is_listed order key = any (text_eq key) order

is_listed-append :
    (order : List Text) (key other : Text)
    → is_listed order key ≡ true
    → is_listed (order ++ other ∷ []) key ≡ true
is_listed-append [] key other h = absurd (ground arith)
is_listed-append (k ∷ order) key other h = ground (arith, is_listed-append order key other)

is_listed_last : (order : List Text) (key : Text) → is_listed (order ++ key ∷ []) key ≡ true
is_listed_last [] key = rw (text_eq_refl key) refl
is_listed_last (k ∷ order) key = ground (arith, is_listed_last order key)

module _ {V : Type 0} where
  -- Every key of the map stands in the order.
  abbrev pub Listed : List Text → List (Text × V) → Type 0
  Listed order = All (λ entry. is_listed order entry.0 ≡ true)

  Listed-remove :
      (key : Text) (order : List Text) (m : List (Text × V))
      → Listed (key ∷ order) m
      → Listed order (remove key m)
  unfolding remove
  Listed-remove key order [] h = tt
  Listed-remove key order ((k, v) ∷ m) (here, later) = elim (Bool-cases (text_eq k key)) [
    | inl same ↦ rw same (Listed-remove key order m later)
    | inr other ↦ rw other ((rw other at here), Listed-remove key order m later)
  ]

  All-remove :
      (P : Text × V → Type 0) (key : Text) (m : List (Text × V)) → All P m → All P (remove key m)
  unfolding remove
  All-remove P key [] h = tt
  All-remove P key ((k, v) ∷ m) (here, later) = elim (Bool-cases (text_eq k key)) [
    | inl same ↦ rw same (All-remove P key m later)
    | inr other ↦ rw other (here, All-remove P key m later)
  ]

  evict-Listed :
      (most : ℕ) (order : List Text) (m : List (Text × V))
      → Listed order m
      → Listed (evict most order m).0 (evict most order m).1
  unfolding evict
  evict-Listed most [] m h = h
  evict-Listed most (key ∷ order) m h = elim (Bool-cases (leb most (length (key ∷ order)))) [
    | inl full ↦ rw full (evict-Listed most order (remove key m) (Listed-remove key order m h))
    | inr room ↦ rw room h
  ]

  evict-All :
      (P : Text × V → Type 0) (most : ℕ) (order : List Text) (m : List (Text × V))
      → All P m
      → All P (evict most order m).1
  unfolding evict
  evict-All P most [] m h = h
  evict-All P most (key ∷ order) m h = elim (Bool-cases (leb most (length (key ∷ order)))) [
    | inl full ↦ rw full (evict-All P most order (remove key m) (All-remove P key m h))
    | inr room ↦ rw room h
  ]

  evict-length :
      (most : ℕ) (order : List Text) (m : List (Text × V))
      → 1 ≤ most
      → length (evict most order m).0 < most
  unfolding evict
  evict-length most [] m h = omega (arith, h)
  evict-length most (key ∷ order) m h = elim (Bool-cases (leb most (length (key ∷ order)))) [
    | inl full ↦ rw full (evict-length most order (remove key m) h)
    | inr room ↦ rw room (ground arith)
  ]

  Listed-append :
      (order : List Text) (other : Text) (m : List (Text × V))
      → Listed order m
      → Listed (order ++ other ∷ []) m
  Listed-append order other [] h = tt
  Listed-append order other ((k, v) ∷ m) (here, later) =
      (is_listed-append order k other here, Listed-append order other m later)

  Listed-put :
      (order : List Text) (key : Text) (v : V) (m : List (Text × V))
      → Listed order m
      → Listed (order ++ key ∷ []) (put key v m)
  unfolding put
  Listed-put order key v m h =
      (is_listed_last order key, All-remove _ key m (Listed-append order key m h))

All-put :
    {V : Type 0} (P : Text × V → Type 0) (key : Text) (v : V) (m : List (Text × V))
    → P (key, v)
    → All P m
    → All P (put key v m)
unfolding put
All-put P key v m here h = (here, All-remove P key m h)

-- The order has no more keys than are allowed, and lists every host; every transport is pinned to the
-- host that it is kept for.
pub record IsPinned (w : WrapTransport) : Type 0 where
  pub bounded : length w.order ≤ max_host_transports
  pub listed : Listed w.order w.hosts
  pub pinned : All (λ entry. entry.1.server_name ≡ entry.0) w.hosts

lookup-All :
    {V : Type 0} (P : Text × V → Type 0) (key : Text) (m : List (Text × V)) (v : V)
    → All P m
    → lookup key m ≡ some v
    → P (key, v)
unfolding lookup
lookup-All P key [] v h e = absurd (ground arith)
lookup-All P key ((k, x) ∷ m) v (here, later) e = elim (Bool-cases (text_eq k key)) [
  | inl same ↦
      let found : x ≡ v = ground (arith, rw same at e) in
      subst (λ y. P (key, y)) found (subst (λ z. P (z, x)) ((text_eq_iff k key).0 same) here)
  | inr other ↦ lookup-All P key m v later (rw other at e)
]

-- The transport for a host is pinned to this host, and the invariant of the transports is kept: at most
-- 128 hosts are kept, and each has a transport pinned to it.
pub transport_for-IsPinned :
    (host : Text) (w : WrapTransport)
    → IsPinned w
    → ((transport_for host w).0.server_name ≡ host) × IsPinned (transport_for host w).1
unfolding transport_for
transport_for-IsPinned host w h = go (lookup host w.hosts) refl
  where
    go :
        (o : Option Transport)
        → lookup host w.hosts ≡ o
        → ((found_or_new host w o).0.server_name ≡ host) × IsPinned (found_or_new host w o).1
    go (some transport) e =
        (lookup-All (λ entry. entry.1.server_name ≡ entry.0) host w.hosts transport h.pinned e, h)
    go none e =
        let room = evict-length max_host_transports w.order w.hosts (omega arith) in
        let order = (evict max_host_transports w.order w.hosts).0 in
        let hosts = (evict max_host_transports w.order w.hosts).1 in
        (
          refl,
          record {
            bounded = omega (arith, room, length-append order (host ∷ []));
            listed =
                Listed-put order host (record { server_name = host }) hosts
                  (evict-Listed max_host_transports w.order w.hosts h.listed);
            pinned =
                All-put (λ entry. entry.1.server_name ≡ entry.0) host
                  (record { server_name = host }) hosts refl
                  (evict-All (λ entry. entry.1.server_name ≡ entry.0) max_host_transports w.order
                    w.hosts h.pinned);
          },
        )

-- The cache of issuers keeps at most 256 URLs, and its order lists every one.
pub record IsBounded (cache : Cache) : Type 0 where
  pub bounded : length cache.order ≤ max_aia_cache_entries
  pub listed : Listed cache.order cache.entries

-- The invariant of the issuer cache is kept when an issuer is cached: at most 256 URLs are kept, and each
-- stands in the order in which they are dropped.
pub cache_issuer-IsBounded :
    (url : Text) (certificate : Certificate) (cache : Cache)
    → IsBounded cache
    → IsBounded (cache_issuer url certificate cache)
unfolding cache_issuer
cache_issuer-IsBounded url certificate cache h = elim (Option-cases (lookup url cache.entries)) [
  | inr (old, e) ↦ rw (e, cache_issuer) h
  | inl e ↦
      rw (e, cache_issuer)
        (let room = evict-length max_aia_cache_entries cache.order cache.entries (omega arith) in
          let order = (evict max_aia_cache_entries cache.order cache.entries).0 in
          record {
            bounded = omega (arith, room, length-append order (url ∷ []));
            listed =
                Listed-put order url certificate
                  (evict max_aia_cache_entries cache.order cache.entries).1
                  (evict-Listed max_aia_cache_entries cache.order cache.entries h.listed);
          })
]
