-- ===== src/Store/Rules/Returning.antt =====
-- What is known of the parts of an operation of internal/db/db.go that succeeds, or fails.
use w8nc.Base.{◌≡◌, refl, ap, sym, ◌∙◌, Bool, true, false, List, [], ◌∷◌, arith}
use w8nc.Base.Result.{Result, ok, err, ok-injective}
use w8nc.Store.{
  Error, Db, Conn, Op, and_then, ◌>>=◌, answer, run_statement, statement, rolled_back, transaction,
  execute, returning, changing, with_db, query, pure, commit, bracketed,
}

-- The operation returns this value and leaves this connection.
abbrev pub Returns : {A : Type 0} → Op A → Conn → A → Conn → Type 0
Returns op c a c' = op c ≡ (ok a, c')

-- The operation fails with this error and leaves this connection.
abbrev pub Fails : {A : Type 0} → Op A → Conn → Error → Conn → Type 0
Fails op c e c' = op c ≡ (err e, c')

module _ {A : Type 0} where
  answer-ok :
      (faults : List Bool) (c : Conn) (r : Result Error (A × Db)) {a : A} {c' : Conn}
      → answer faults c r ≡ (ok a, c')
      → r ≡ ok (a, c'.db)
  unfolding answer
  answer-ok faults c (ok (b, db)) h = ground arith
  answer-ok faults c (err e) h = absurd (ground arith)

  -- A statement that succeeds has done what it says.
  pub statement-ok :
      (f : Db → Result Error (A × Db)) (c : Conn) {a : A} {c' : Conn}
      → Returns (statement f) c a c'
      → f c.db ≡ ok (a, c'.db)
  unfolding statement
  statement-ok f c {a} {c'} h = go c.faults h
    where
      go : (faults : List Bool) → run_statement f faults c ≡ (ok a, c') → f c.db ≡ ok (a, c'.db)
      go [] e = answer-ok [] c (f c.db) e
      go (true ∷ faults) e = absurd (ground arith)
      go (false ∷ faults) e = answer-ok faults c (f c.db) e

pub execute-ok :
    (f : Db → Db) (c : Conn) {u : Unit {0}} {c' : Conn}
    → Returns (execute f) c u c'
    → c'.db ≡ f c.db
unfolding execute returning
execute-ok f c h = sym (ap (λ p. p.1) (ok-injective (statement-ok (λ db. ok (tt, f db)) c h)))

module _ {A B : Type 0} where
  -- A sequence that succeeds has two parts that succeed.
  pub >>=-ok :
      (m : Op A) (f : A → Op B) (c : Conn) {b : B} {c' : Conn}
      → Returns (m >>= f) c b c'
      → (a : A) × (c1 : Conn) × Returns m c a c1 × Returns (f a) c1 b c'
  unfolding and_then
  >>=-ok m f c {b} {c'} h = go (m c) refl h
    where
      go :
          (r : Result Error A × Conn)
          → m c ≡ r
          → and_then f r ≡ (ok b, c')
          → (a : A) × (c1 : Conn) × Returns m c a c1 × Returns (f a) c1 b c'
      go (ok a, c1) e k = (a, c1, e, k)
      go (err e, c1) _ k = absurd (ground arith)

module _ {A : Type 0} where
  rolled_back-ok :
      (saved : Db) (r : Result Error A × Conn) {a : A} {c' : Conn}
      → rolled_back saved r ≡ (ok a, c')
      → r ≡ (ok a, c')
  unfolding rolled_back
  rolled_back-ok saved (ok b, c1) h = h
  rolled_back-ok saved (err e, c1) h = absurd (ground arith)

  rolled_back-err :
      (saved : Db) (r : Result Error A × Conn) {e : Error} {c' : Conn}
      → rolled_back saved r ≡ (err e, c')
      → c'.db ≡ saved
  unfolding rolled_back
  rolled_back-err saved (ok b, c1) h = absurd (ground arith)
  rolled_back-err saved (err e, c1) h = ground arith

  -- A transaction that fails leaves the database as it was.
  pub transaction-err :
      (op : Op A) (c : Conn) {e : Error} {c' : Conn} → Fails (transaction op) c e c' → c'.db ≡ c.db
  unfolding transaction bracketed commit
  transaction-err op c h = rolled_back-err c.db (bracketed op c) h

  -- A transaction that succeeds has the effect of its body on the same database.
  pub transaction-ok :
      (op : Op A) (c : Conn) {a : A} {c' : Conn}
      → Returns (transaction op) c a c'
      → (c0 : Conn) × (c1 : Conn) × (c0.db ≡ c.db) × Returns op c0 a c1 × (c'.db ≡ c1.db)
  unfolding transaction bracketed commit
  transaction-ok op c {a} {c'} h =
      let (_, c0, begun, rest) =
        >>=-ok (execute (λ db. db)) (λ _. op >>= commit) c
          (rolled_back-ok c.db (bracketed op c) h) in
      let (b, c1, done, last) = >>=-ok op commit c0 rest in
      let (_, c2, committed, end) = >>=-ok (execute (λ db. db)) (λ _. pure b) c1 last in
      (
        c0,
        c1,
        execute-ok (λ db. db) c begun,
        done ∙ ap (λ x. (ok x, c1)) (ok-injective (ap (λ p. p.0) end)),
        ap (λ p. p.1.db) (sym end) ∙ execute-ok (λ db. db) c1 committed,
      )

-- A read that succeeds has the value at the database, which stays.
pub query-ok :
    {A : Type 0} (g : Db → Result Error A) (c : Conn) {a : A} {c' : Conn}
    → Returns (query g) c a c'
    → (g c.db ≡ ok a) × (c'.db ≡ c.db)
unfolding query changing
query-ok {A} g c {a} {c'} h = go (g c.db) (statement-ok (λ db. with_db db (g db)) c h)
  where
    go : (r : Result Error A) → with_db c.db r ≡ ok (a, c'.db) → (r ≡ ok a) × (c'.db ≡ c.db)
    go (ok b) e = (ground arith, ground arith)
    go (err b) e = absurd (ground arith)

pub returning-ok :
    {A : Type 0} (g : Db → A) (f : Db → Db) (c : Conn) {a : A} {c' : Conn}
    → Returns (returning g f) c a c'
    → (g c.db ≡ a) × (c'.db ≡ f c.db)
unfolding returning
returning-ok g f c {a} {c'} h =
    let e = ok-injective (statement-ok (λ db. ok (g db, f db)) c h) in
    (ap (λ r. r.0) e, ap (λ r. r.1) (sym e))

-- A change that succeeds has found what it looks for, and has changed the rows.
pub changing-ok :
    {A : Type 0} (g : Db → Result Error A) (f : Db → Db) (c : Conn) {a : A} {c' : Conn}
    → Returns (changing g f) c a c'
    → (g c.db ≡ ok a) × (c'.db ≡ f c.db)
unfolding changing
changing-ok {A} g f c {a} {c'} h = go (g c.db) (statement-ok (λ db. with_db (f db) (g db)) c h)
  where
    go : (r : Result Error A) → with_db (f c.db) r ≡ ok (a, c'.db) → (r ≡ ok a) × (c'.db ≡ f c.db)
    go (ok b) e = (ground arith, ground arith)
    go (err b) e = absurd (ground arith)

-- A change that fails changes nothing.
pub changing-err :
    {A : Type 0} (g : Db → Result Error A) (f : Db → Db) (c : Conn) {e : Error} {c' : Conn}
    → Fails (changing g f) c e c'
    → c'.db ≡ c.db
unfolding changing statement answer
changing-err {A} g f c {e} {c'} h = go c.faults h
  where
    answered :
        (faults : List Bool) (r : Result Error A)
        → answer faults c (with_db (f c.db) r) ≡ (err e, c')
        → c'.db ≡ c.db
    answered faults (ok a) k = absurd (ground arith)
    answered faults (err b) k = ground arith

    go :
        (faults : List Bool)
        → run_statement (λ db. with_db (f db) (g db)) faults c ≡ (err e, c')
        → c'.db ≡ c.db
    go [] k = answered [] (g c.db) k
    go (true ∷ faults) k = ground arith
    go (false ∷ faults) k = answered faults (g c.db) k

pub execute-err :
    (f : Db → Db) (c : Conn) {e : Error} {c' : Conn} → Fails (execute f) c e c' → c'.db ≡ c.db
unfolding execute returning changing
execute-err f c h = changing-err (λ db. ok tt) f c h
