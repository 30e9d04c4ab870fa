-- ===== src/TlsVerify/Trust.antt =====
-- What Verify accepts (internal/tlsverify/tlsverify.go).
use w8nc.Base.{
  ℕ, zero, suc, ◌≤◌, ◌≡◌, refl, ap, ◌∙◌, subst, inl, inr, true, not, ◌||◌, Option, none, some, List,
  [], ◌∷◌, ◌++◌, append_assoc, append-nil, arith, length, take, Bool-cases, Option-cases,
}
use w8nc.Base.Assoc.{lookup}
use w8nc.Base.Text.{Text}
use w8nc.TlsVerify.{
  Certificate, ChainError, World, Cache, is_issuer_of, pick, usable, picked, downloaded,
  issuer_from_url, is_http, fetch_from, fetch_issuer, repair, last_of, is_unknown_authority,
  after_chain, max_aia_hops, verify,
}

-- Each certificate issued the one before it.
abbrev pub Linked : World → Certificate → List Certificate → Type 0
Linked world child [] = Unit
Linked world child (issuer ∷ issuers) =
    (is_issuer_of world issuer child ≡ true) × Linked world issuer issuers

module _ (world : World) (child : Certificate) where
  pick-issues :
      (candidates : List Certificate) (c : Certificate)
      → pick world child candidates ≡ some c
      → is_issuer_of world c child ≡ true
  unfolding pick
  pick-issues [] c h = absurd (ground arith)
  pick-issues (candidate ∷ candidates) c h =
      elim (Bool-cases (is_issuer_of world candidate child)) [
        | inl issued ↦ subst (λ x. is_issuer_of world x child ≡ true) (ground arith) issued
        | inr miss ↦ pick-issues candidates c (rw miss at h)
      ]

  usable-issues :
      (o : Option Certificate) (c : Certificate)
      → usable world child o ≡ some c
      → is_issuer_of world c child ≡ true
  usable-issues none c h = absurd (ground arith)
  usable-issues (some cached) c h = elim (Bool-cases (is_issuer_of world cached child)) [
    | inl issued ↦ subst (λ x. is_issuer_of world x child ≡ true) (ground arith) issued
    | inr miss ↦ absurd (ground arith)
  ]

  downloaded-issues :
      (url : Text) (cache : Cache) (o : Option Text) (c : Certificate)
      → (downloaded world url child cache o).0 ≡ some c
      → is_issuer_of world c child ≡ true
  downloaded-issues url cache none c h = absurd (ground arith)
  downloaded-issues url cache (some body) c h =
      go (pick world child (world.parse_certificates body)) refl h
    where
      go :
          (o : Option Certificate)
          → pick world child (world.parse_certificates body) ≡ o
          → (picked url cache o).0 ≡ some c
          → is_issuer_of world c child ≡ true
      go none e k = absurd (ground arith)
      go (some found) e k = pick-issues (world.parse_certificates body) c (e ∙ k)

  issuer_from_url-issues :
      (url : Text) (cache : Cache) (c : Certificate)
      → (issuer_from_url world url child cache).0 ≡ some c
      → is_issuer_of world c child ≡ true
  unfolding issuer_from_url
  issuer_from_url-issues url cache c h =
      elim (Option-cases (usable world child (lookup url cache.entries))) [
        | inl e ↦ downloaded-issues url cache (world.download url) c (rw (e, issuer_from_url) at h)
        | inr (found, e) ↦
            usable-issues (lookup url cache.entries) c (e ∙ (rw (e, issuer_from_url) at h))
      ]

  fetch_from-issues :
      (urls : List Text) (cache : Cache) (c : Certificate)
      → (fetch_from world child urls cache).0 ≡ some c
      → is_issuer_of world c child ≡ true
  unfolding fetch_from
  fetch_from-issues [] cache c h = absurd (ground arith)
  fetch_from-issues (url ∷ urls) cache c h = elim (Bool-cases (is_http url)) [
    | inr miss ↦ fetch_from-issues urls cache c (rw miss at h)
    | inl http ↦ elim (Option-cases (issuer_from_url world url child cache).0) [
      | inl e ↦
          fetch_from-issues urls (issuer_from_url world url child cache).1 c (rw (http, e) at h)
      | inr (found, e) ↦ issuer_from_url-issues url cache c (e ∙ (rw (http, e) at h))
    ]
  ]

fetch_issuer-issues :
    (world : World) (child : Certificate) (cache : Cache) (c : Certificate)
    → (fetch_issuer world child cache).0 ≡ some c
    → is_issuer_of world c child ≡ true
unfolding fetch_issuer
fetch_issuer-issues world child cache c h =
    fetch_from-issues world child (take 3 child.issuing_certificate_url) cache c h

module _ (world : World) (name : Text) (leaf : Certificate) where
  -- The certificates that a repair added.
  unfoldable Repaired : Certificate → List Certificate → ℕ → Type 0
  Repaired current intermediates hops =
      (extra : List Certificate) × (world.leaf_verify name (intermediates ++ extra) leaf ≡ none)
      × Linked world current extra
      × (length extra ≤ hops)

  repair-accepts :
      (e : ChainError) (hops : ℕ) (current : Certificate) (intermediates : List Certificate)
      (cache : Cache)
      → (repair world name leaf e hops current intermediates cache).0 ≡ none
      → Repaired current intermediates hops
  unfolding repair Repaired
  repair-accepts e zero current intermediates cache h = absurd (ground arith)
  repair-accepts e (suc hops) current intermediates cache h =
      elim (Option-cases (fetch_issuer world current cache).0) [
        | inl missing ↦ absurd (cc (rw (missing, repair) at h))
        | inr (issuer, found) ↦
            let issued = fetch_issuer-issues world current cache issuer found in
            elim (Option-cases (world.leaf_verify name (intermediates ++ issuer ∷ []) leaf)) [
              | inl valid ↦ (issuer ∷ [], valid, (issued, tt), omega arith)
              | inr (e2, failed) ↦
                  let (extra, valid, linked, few) =
                    repair-accepts e hops issuer (intermediates ++ issuer ∷ [])
                      (fetch_issuer world current cache).1 (rw (found, failed, repair) at h) in
                  (
                    issuer ∷ extra,
                    subst (λ certificates. world.leaf_verify name certificates leaf ≡ none)
                        (append_assoc intermediates (issuer ∷ []) extra) valid,
                    (issued, linked),
                    omega (arith, few),
                  )
            ]
      ]

  after_chain-accepts :
      (intermediates : List Certificate) (o : Option ChainError) (cache : Cache)
      → world.leaf_verify name intermediates leaf ≡ o
      → (after_chain world name leaf intermediates o cache).0 ≡ none
      → Repaired (last_of leaf intermediates) intermediates 4
  unfolding Repaired
  after_chain-accepts intermediates none cache e h = (
    [],
    ap (λ certificates. world.leaf_verify name certificates leaf) (append-nil intermediates) ∙ e,
    tt,
    omega arith,
  )
  after_chain-accepts intermediates (some chain_error) cache e h =
      elim (Bool-cases (not world.fetch_enabled || not (is_unknown_authority chain_error))) [
        | inl refused ↦ absurd (cc (rw refused at h))
        | inr tried ↦
            repair-accepts chain_error max_aia_hops (last_of leaf intermediates) intermediates cache
              (rw tried at h)
      ]

-- What makes Verify accept the certificates of a peer: they are not empty, the system pool is there,
-- and the leaf verifies with the other certificates of the peer and at most four more, the first of
-- which issued the peer's last certificate and each next one the one before it.
abbrev pub Accepted : World → Text → List Certificate → Type 0
Accepted world name [] = ⊥
Accepted world name (leaf ∷ sent) =
    (world.has_system_roots ≡ true)
    × ((extra : List Certificate) × (world.leaf_verify name (sent ++ extra) leaf ≡ none)
        × Linked world (last_of leaf sent) extra
        × (length extra ≤ 4))

-- If Verify reports no error, there is a system pool, and the leaf verifies against it with the
-- certificates that the peer sent and at most four more, each of which issued the one before it.
pub verify-Accepted :
    (world : World) (name : Text) (peers : List Certificate) (cache : Cache)
    → (verify world name peers cache).0 ≡ none
    → Accepted world name peers
unfolding verify Repaired repair fetch_issuer is_issuer_of
verify-Accepted world name [] cache h = absurd (ground arith)
verify-Accepted world name (leaf ∷ sent) cache h = elim (Bool-cases world.has_system_roots) [
  | inl there ↦ (
    there,
    after_chain-accepts world name leaf sent (world.leaf_verify name sent leaf) cache refl
        (rw (there, verify) at h),
  )
  | inr missing ↦ absurd (cc (rw (missing, verify) at h))
]
