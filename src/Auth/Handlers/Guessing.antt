-- ===== src/Auth/Handlers/Guessing.antt =====
-- Logins of internal/auth/auth.go with wrong passwords, under the limiter.
use w8nc.Base.{
  ℕ, ◌+◌, ◌≤◌, ◌<◌, ◌⊎◌, ◌≡◌, refl, sym, ap, subst, ◌∙◌, inl, inr, Bool, true, false, none, some,
  List, [], ◌∷◌, ◌++◌, ◌==◌, leb, filter, length, All, All-append, Bool-cases, arith,
}
use w8nc.Base.Assoc.{lookup}
use w8nc.Base.Result.{Result, ok, err, ok-injective}
use w8nc.Base.Sort.{sort_by, sort_by-All}
use w8nc.Base.Text.{Text, text_eq_refl}
use w8nc.Store
use w8nc.Store.{User, Db, Conn}
use w8nc.Store.Rules.{query_db, query-ok}
use w8nc.Store.Users.{primary_user, first_row, is_older}
use w8nc.Auth.{World, Manager, Response, Request, client_ip}
use w8nc.Auth.RateLimiter.{RateLimiter as Limiter, limited, record_failure}
use w8nc.Auth.RateLimiter.Counting.{
  Act, fails, asks, resets, act, run, failures, Within, limited_counts,
}
use w8nc.Auth.Handlers.{login, unless_limited, with_user}

-- The statuses of logins at these times with these passwords.
unfoldable pub statuses : World → Request → List (ℕ × Text) → Manager → List ℕ
statuses w request [] m = []
statuses w request ((now, password) ∷ tries) m =
    (login w now (some password) request m).0.status
    ∷ statuses w request tries (login w now (some password) request m).1

-- The manager behind them.
unfoldable pub after : World → Request → List (ℕ × Text) → Manager → Manager
after w request [] m = m
after w request ((now, password) ∷ tries) m =
    after w request tries (login w now (some password) request m).1

-- The password matches the hash of no user.
abbrev pub IsWrongFor : World → Text → List User → Type 0
IsWrongFor w password users = All (λ user. w.matches user.password_hash password ≡ false) users

-- A try within the times, with such a password.
abbrev pub IsWrong : World → List User → ℕ → ℕ → ℕ × Text → Type 0
IsWrong w users from until (now, password) =
    (from ≤ now) × (now ≤ until) × IsWrongFor w password users

abbrev pub refusals : List ℕ → ℕ
refusals found = length (filter (λ status. status == 401) found)

first_row-All :
    (P : User → Type 0) (users : List User) (user : User)
    → All P users
    → first_row users ≡ ok user
    → P user
first_row-All P [] user h e = absurd (cc)
first_row-All P (x ∷ users) user (here, later) e = subst P (ok-injective e) here

-- The user that PrimaryUser finds is one of the table.
primary_user-All :
    (P : User → Type 0) (c : Conn) (user : User)
    → All P c.db.users
    → (primary_user c).0 ≡ ok user
    → P user
unfolding primary_user
primary_user-All P c user h found =
    let (row, _) = query-ok _ c (ap (λ r. (r, (primary_user c).1)) found) in
    first_row-All P (sort_by is_older c.db.users) user (sort_by-All is_older P c.db.users h) row

primary_user-db : (c : Conn) → (primary_user c).1.db ≡ c.db
unfolding primary_user
primary_user-db c = query_db _ c

module _ (w : World) (request : Request) where
  -- What a wrong password does: a refusal that is counted, or nothing; the tables stay.
  Wrong : ℕ → Bool → Limiter → Db → Response × Manager → Type 0
  Wrong now true r db (response, m) =
      (response.status ≡ 429) × (m.rate_limiter ≡ r) × (m.store.db ≡ db)
  Wrong now false r db (response, m) =
      (response.status ≡ 401)
      × (m.rate_limiter ≡ record_failure now (client_ip w request) r)
      × (m.store.db ≡ db)

  refused-Wrong :
      (now : ℕ) (password : Text) (m : Manager) (result : Result Store.Error User)
      → ((user : User) → result ≡ ok user → w.matches user.password_hash password ≡ false)
      → Wrong now false m.rate_limiter m.store.db
          (with_user w now password (client_ip w request) result m)
  unfolding Wrong with_user
  refused-Wrong now password m (err e) wrong = (refl, refl, refl)
  refused-Wrong now password m (ok user) wrong = rw (wrong user refl) (refl, refl, refl)

  login-Wrong :
      (now : ℕ) (password : Text) (m : Manager)
      → IsWrongFor w password m.store.db.users
      → Wrong now
          (limited now (client_ip w request) m.rate_limiter).0
          (limited now (client_ip w request) m.rate_limiter).1
          m.store.db
          (login w now (some password) request m)
  unfolding Wrong login unless_limited
  login-Wrong now password m wrong =
      go (limited now (client_ip w request) m.rate_limiter).0
        (record m { rate_limiter = (limited now (client_ip w request) m.rate_limiter).1 }) wrong
    where
      go :
          (stopped : Bool) (before : Manager)
          → IsWrongFor w password before.store.db.users
          → Wrong now stopped before.rate_limiter before.store.db
              (unless_limited w now password (client_ip w request) stopped before)
      go true before wrong = (refl, refl, refl)
      go false before wrong =
          let (status, counted, same) =
            refused-Wrong now password (record before { store = (primary_user before.store).1 })
              (primary_user before.store).0
              (λ user.
                primary_user-All (λ u. w.matches u.password_hash password ≡ false) before.store user
                  wrong) in
          (status, counted, same ∙ primary_user-db before.store)

leb-true : (a b : ℕ) → a ≤ b → leb a b ≡ true
leb-true a b h = ground arith

run-append : (acts more : List Act) (r : Limiter) → run (acts ++ more) r ≡ run more (run acts r)
run-append [] more r = refl
run-append (a ∷ acts) more r = run-append acts more _

failures-append :
    (ip : Text) (acts more : List Act)
    → failures ip (acts ++ more) ≡ failures ip acts + failures ip more
failures-append ip [] more = omega arith
failures-append ip (fails now other ∷ acts) more = omega (arith, failures-append ip acts more)
failures-append ip (asks now other ∷ acts) more = failures-append ip acts more
failures-append ip (resets other ∷ acts) more = failures-append ip acts more

module _ (w : World) (request : Request) (from : ℕ) (r : Limiter) (users : List User)
    (some_limit : 1 ≤ r.limit) (unknown : lookup (client_ip w request) r.items ≡ none) where
  abbrev ip : Text
  ip = client_ip w request

  abbrev Reached : List Act → Manager → Type 0
  Reached acts m =
      All (Within ip from (from + r.window)) acts
      × (failures ip acts ≤ r.limit)
      × (m.rate_limiter ≡ run acts r)
      × (m.store.db.users ≡ users)

  -- One try more.
  try-Reached :
      (now : ℕ) (password : Text) (acts : List Act) (m : Manager)
      → IsWrong w users from (from + r.window) (now, password)
      → Reached acts m
      → (more : List Act) × Reached (acts ++ more) (login w now (some password) request m).1
        × (failures ip (acts ++ more)
            ≡ failures ip acts + refusals ((login w now (some password) request m).0.status ∷ []))
  unfolding Wrong
  try-Reached now password acts m (late, early, wrong) (within, bound, same, kept) =
      let counted : (limited now ip m.rate_limiter).0 ≡ leb r.limit (failures ip acts) =
        ap (λ l. (limited now ip l).0) same
        ∙ limited_counts ip from now r acts some_limit unknown within late early in
      let step =
        login-Wrong w request now password m (subst (IsWrongFor w password) (sym kept) wrong) in
      elim (Bool-cases (limited now ip m.rate_limiter).0) [
        | inl stopped ↦
            let (status, counts, stays) =
              subst
                (λ b.
                  Wrong w request now b (limited now ip m.rate_limiter).1 m.store.db
                    (login w now (some password) request m))
                stopped step in
            (
              asks now ip ∷ [],
              (
                All-append _ acts _ within ((late, early), tt),
                omega (arith, bound, failures-append ip acts (asks now ip ∷ [])),
                counts ∙ (ap (act (asks now ip)) same ∙ sym (run-append acts (asks now ip ∷ []) r)),
                ap (λ db. db.users) stays ∙ kept,
              ),
              rw status (omega (arith, failures-append ip acts (asks now ip ∷ []))),
            )
        | inr free ↦
            let (status, counts, stays) =
              subst
                (λ b.
                  Wrong w request now b (limited now ip m.rate_limiter).1 m.store.db
                    (login w now (some password) request m))
                free step in
            let more : List Act = asks now ip ∷ fails now ip ∷ [] in
            let one : failures ip more ≡ 1 = rw (text_eq_refl ip) refl in
            (
              more,
              (
                All-append _ acts more within ((late, early), ((late, early), tt)),
                ground (arith, one, counted, failures-append ip acts more),
                counts ∙ (ap (run more) same ∙ sym (run-append acts more r)),
                ap (λ db. db.users) stays ∙ kept,
              ),
              rw status (omega (arith, one, failures-append ip acts more)),
            )
      ]

  refusals-cons :
      (status : ℕ) (found : List ℕ)
      → refusals (status ∷ found) ≡ refusals (status ∷ []) + refusals found
  refusals-cons status found = ground arith

  tries-Reached :
      (tries : List (ℕ × Text)) (acts : List Act) (m : Manager)
      → All (IsWrong w users from (from + r.window)) tries
      → Reached acts m
      → (done : List Act) × Reached done (after w request tries m)
        × (failures ip done ≡ failures ip acts + refusals (statuses w request tries m))
  unfolding statuses after
  tries-Reached [] acts m wrong reached = (acts, reached, omega arith)
  tries-Reached ((now, password) ∷ tries) acts m (here, later) past =
      let (more, then, count) = try-Reached now password acts m here past in
      let out = login w now (some password) request m in
      let (done, reached, total) = tries-Reached tries (acts ++ more) out.1 later then in
      let split : refusals (statuses w request ((now, password) ∷ tries) m)
          ≡ refusals (out.0.status ∷ []) + refusals (statuses w request tries out.1) =
        refusals-cons out.0.status (statuses w request tries out.1) in
      (done, reached, omega (arith, count, total, split))

  -- Behind the limit no password is looked at.
  login_stops :
      (acts : List Act) (m : Manager) (now : ℕ) (password : Text)
      → Reached acts m
      → r.limit ≤ failures ip acts
      → from ≤ now
      → now ≤ from + r.window
      → (login w now (some password) request m).0.status ≡ 429
  unfolding login unless_limited
  login_stops acts m now password (within, bound, same, kept) used late early =
      let stopped : (limited now ip m.rate_limiter).0 ≡ true =
        ap (λ l. (limited now ip l).0) same
        ∙ (limited_counts ip from now r acts some_limit unknown within late early
            ∙ leb-true r.limit (failures ip acts) used) in
      rw stopped refl

-- Let no password of some tries match the hash of any user, and start within one window from a limiter with
-- a positive limit that holds nothing of the address of the requests. Then fewer of the tries than the limit
-- are answered with the status 401; or as many are, and every later password within the window, the right
-- one too, is answered with the status 429.
pub guesses_bounded :
    (w : World) (request : Request) (from : ℕ) (m : Manager) (tries : List (ℕ × Text)) (now : ℕ)
    (password : Text)
    → 1 ≤ m.rate_limiter.limit
    → lookup (client_ip w request) m.rate_limiter.items ≡ none
    → All (IsWrong w m.store.db.users from (from + m.rate_limiter.window)) tries
    → from ≤ now
    → now ≤ from + m.rate_limiter.window
    → (refusals (statuses w request tries m) < m.rate_limiter.limit)
      ⊎ ((refusals (statuses w request tries m) ≡ m.rate_limiter.limit)
          × ((login w now (some password) request (after w request tries m)).0.status ≡ 429))
guesses_bounded w request from m tries now password some_limit unknown wrong late early =
    let (done, reached, total) =
      tries-Reached w request from m.rate_limiter m.store.db.users some_limit unknown tries [] m
        wrong (tt, omega arith, refl, refl) in
    let (within, bound, same, kept) = reached in
    elim (Bool-cases (leb m.rate_limiter.limit (refusals (statuses w request tries m)))) [
      | inr less ↦ inl (ground arith)
      | inl used ↦
          let reaches : m.rate_limiter.limit ≤ refusals (statuses w request tries m) =
            ground arith in
          inr (
            omega (arith, bound, total, reaches),
            login_stops w request from m.rate_limiter m.store.db.users some_limit unknown done
                (after w request tries m) now password reached (omega (arith, reaches, total)) late
                early,
          )
    ]
