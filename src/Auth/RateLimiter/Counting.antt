-- ===== src/Auth/RateLimiter/Counting.antt =====
-- Runs of the rate limiter within one window (internal/auth/auth.go).
use w8nc.Base.{
  ℕ, suc, ◌+◌, ◌≤◌, ◌≡◌, ◌≢◌, refl, sym, ap, subst, ◌∙◌, inl, inr, false, Option, none, some, List,
  [], ◌∷◌, arith, leb, if◌then◌else◌, All, Bool-cases,
}
use w8nc.Base.Assoc.{lookup, lookup-remove_other, lookup-put, lookup-put_other}
use w8nc.Base.Text.{Text, text_eq, text_eq_iff, text_eq_refl}
use w8nc.Auth.RateLimiter.{
  Attempts, RateLimiter, limited_item, limited, current_item, counted, is_over, record_failure,
  reset,
}

-- An operation at a time, for an address.
pub data Act : Type 0 where
  fails asks : ℕ → Text → Act
  resets : Text → Act

abbrev pub act : Act → RateLimiter → RateLimiter
act (fails now ip) r = record_failure now ip r
act (asks now ip) r = (limited now ip r).1
act (resets ip) r = reset ip r

abbrev pub run : List Act → RateLimiter → RateLimiter
run [] r = r
run (a ∷ acts) r = run acts (act a r)

-- The operation falls between the two times, and is no reset of this address.
abbrev pub Within : Text → ℕ → ℕ → Act → Type 0
Within ip from until (fails now other) = (from ≤ now) × (now ≤ until)
Within ip from until (asks now other) = (from ≤ now) × (now ≤ until)
Within ip from until (resets other) = other ≢ ip

abbrev pub failures : Text → List Act → ℕ
failures ip [] = 0
failures ip (fails now other ∷ acts) = (if text_eq other ip then 1 else 0) + failures ip acts
failures ip (asks now other ∷ acts) = failures ip acts
failures ip (resets other ∷ acts) = failures ip acts

-- The entry of the address: none before the first failure, else the number of failures since a time
-- not before the window.
abbrev pub Holds : ℕ → ℕ → Option Attempts → Type 0
Holds from n none = n ≡ 0
Holds from n (some item) = (item.count ≡ n) × (1 ≤ n) × (from ≤ item.first_seen)

module _ (ip : Text) (from : ℕ) where
  abbrev Counts : ℕ → ℕ → RateLimiter → Type 0
  Counts window n r = (r.window ≡ window) × Holds from n (lookup ip r.items)

  current_item-Holds :
      (now window n : ℕ) (o : Option Attempts)
      → from ≤ now
      → now ≤ from + window
      → Holds from n o
      → Holds from (suc n) (some (counted (current_item now window o)))
  current_item-Holds now window n none late early h = ground (arith, h, late)
  current_item-Holds now window n (some item) late early h =
      let (same, _, since) = h in
      let fresh : is_over now item.first_seen window ≡ false = ground arith in
      rw fresh (ap suc same, omega arith, since)

  record_failure-Counts :
      (now window n : ℕ) (r : RateLimiter)
      → from ≤ now
      → now ≤ from + window
      → Counts window n r
      → Counts window (suc n) (record_failure now ip r)
  unfolding record_failure
  record_failure-Counts now window n r late early (same, h) = (
    same,
    rw (lookup-put ip (counted (current_item now r.window (lookup ip r.items))) r.items)
        (current_item-Holds now r.window n (lookup ip r.items) late (omega (arith, early, same)) h),
  )

  record_failure_other-Counts :
      (now window n : ℕ) (other : Text) (r : RateLimiter)
      → other ≢ ip
      → Counts window n r
      → Counts window n (record_failure now other r)
  unfolding record_failure
  record_failure_other-Counts now window n other r differ (same, h) = (
    same,
    rw
        (lookup-put_other ip other (counted (current_item now r.window (lookup other r.items)))
          r.items (λ e. differ (sym e)))
        h,
  )

  limited-Counts :
      (now window n : ℕ) (other : Text) (r : RateLimiter)
      → from ≤ now
      → now ≤ from + window
      → Counts window n r
      → Counts window n (limited now other r).1
  unfolding limited
  limited-Counts now window n other r late early (same, h) = go (lookup other r.items) refl
    where
      go :
          (o : Option Attempts)
          → lookup other r.items ≡ o
          → Counts window n (limited_item now other r o).1
      go none e = (same, h)
      go (some item) e = elim (Bool-cases (is_over now item.first_seen r.window)) [
        | inr fresh ↦ rw fresh (same, h)
        | inl over ↦ elim (Bool-cases (text_eq other ip)) [
          | inl here ↦
              let found : Holds from n (some item) =
                subst (Holds from n)
                  (ap (λ k. lookup k r.items) (sym ((text_eq_iff other ip).0 here)) ∙ e) h in
              let (_, _, since) = found in absurd (ground (arith, since, over, same))
          | inr there ↦ rw over (
            same,
            rw
                (lookup-remove_other ip other r.items
                  (λ e2. absurd (cc (e2, text_eq_refl ip, there))))
                h,
          )
        ]
      ]

  reset_other-Counts :
      (window n : ℕ) (other : Text) (r : RateLimiter)
      → other ≢ ip
      → Counts window n r
      → Counts window n (reset other r)
  unfolding reset
  reset_other-Counts window n other r differ (same, h) =
      (same, rw (lookup-remove_other ip other r.items (λ e. differ (sym e))) h)

  run-Counts :
      (window n : ℕ) (acts : List Act) (r : RateLimiter)
      → All (Within ip from (from + window)) acts
      → Counts window n r
      → Counts window (n + failures ip acts) (run acts r)
  run-Counts window n [] r h k = subst (λ m. Counts window m r) (omega arith) k
  run-Counts window n (fails now other ∷ acts) r ((late, early), later) k =
      elim (Bool-cases (text_eq other ip)) [
        | inl here ↦
            subst (λ m. Counts window m (run acts (record_failure now other r)))
              (rw here (omega arith))
              (run-Counts window (suc n) acts (record_failure now other r) later (
                subst (λ k. Counts window (suc n) (record_failure now k r))
                  (sym ((text_eq_iff other ip).0 here))
                  (record_failure-Counts now window n r late early k)))
        | inr there ↦
            subst (λ m. Counts window m (run acts (record_failure now other r)))
              (rw there (omega arith))
              (run-Counts window n acts (record_failure now other r) later (
                record_failure_other-Counts now window n other r
                  (λ e. absurd (cc (e, text_eq_refl ip, there))) k))
      ]
  run-Counts window n (asks now other ∷ acts) r ((late, early), later) k =
      run-Counts window n acts (limited now other r).1 later
        (limited-Counts now window n other r late early k)
  run-Counts window n (resets other ∷ acts) r (differ, later) k =
      run-Counts window n acts (reset other r) later (reset_other-Counts window n other r differ k)

act_limit : (a : Act) (r : RateLimiter) → (act a r).limit ≡ r.limit
unfolding record_failure limited reset
act_limit (fails now ip) r = refl
act_limit (resets ip) r = refl
act_limit (asks now ip) r = go (lookup ip r.items)
  where
    go : (o : Option Attempts) → (limited_item now ip r o).1.limit ≡ r.limit
    go none = refl
    go (some item) = elim (Bool-cases (is_over now item.first_seen r.window)) [
      | inl over ↦ rw over refl
      | inr fresh ↦ rw fresh refl
    ]

run_limit : (acts : List Act) (r : RateLimiter) → (run acts r).limit ≡ r.limit
run_limit [] r = refl
run_limit (a ∷ acts) r = run_limit acts (act a r) ∙ act_limit a r

limited_if_counted :
    (ip : Text) (from n t : ℕ) (r : RateLimiter)
    → from ≤ t
    → t ≤ from + r.window
    → 1 ≤ r.limit
    → Holds from n (lookup ip r.items)
    → (limited t ip r).0 ≡ leb r.limit n
unfolding limited
limited_if_counted ip from n t r late early some_limit h = go (lookup ip r.items) h
  where
    go : (o : Option Attempts) → Holds from n o → (limited_item t ip r o).0 ≡ leb r.limit n
    go none k = ground arith
    go (some item) (same, some_failure, since) =
        let fresh : is_over t item.first_seen r.window ≡ false = ground arith in
        rw fresh (ap (leb r.limit) same)

-- From a limiter with a positive limit that holds nothing of an address on, if no longer than a window
-- passes and the address is not reset, Limited holds exactly if at least as many failures of this
-- address as the limit were recorded, whatever happens to other addresses in between.
pub limited_counts :
    (ip : Text) (from t : ℕ) (r : RateLimiter) (acts : List Act)
    → 1 ≤ r.limit
    → lookup ip r.items ≡ none
    → All (Within ip from (from + r.window)) acts
    → from ≤ t
    → t ≤ from + r.window
    → (limited t ip (run acts r)).0 ≡ leb r.limit (failures ip acts)
limited_counts ip from t r acts some_limit unknown h late early =
    let (window, holds) = run-Counts ip from r.window 0 acts r h (refl, rw unknown refl) in
    let same = run_limit acts r in
    let counted : Holds from (failures ip acts) (lookup ip (run acts r).items) =
      subst (λ n. Holds from n (lookup ip (run acts r).items)) (omega arith) holds in
    limited_if_counted ip from (failures ip acts) t (run acts r) late (omega (arith, early, window))
      (omega (arith, some_limit, same)) counted
    ∙ ap (λ l. leb l (failures ip acts)) same
