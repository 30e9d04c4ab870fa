-- ===== src/Store/Rules/Doing.antt =====
-- Operations of internal/db/db.go that make one change of the database, or none.
use w8nc.Base.{◌≡◌, refl, ap, sym, subst, ◌∙◌, []}
use w8nc.Base.Result.{Result, ok, err}
use w8nc.Store.{
  Error, Db, Conn, Op, transaction, changing, execute, query, answer, run_statement, statement,
  with_db,
}
use w8nc.Store.Rules.Returning.{
  Returns, changing-ok, changing-err, execute-ok, execute-err, transaction-ok, transaction-err,
}

-- The change on success, the old database on failure.
abbrev pub Effect : {A : Type 0} → Db → (Db → Db) → Result Error A × Conn → Type 0
Effect db f (ok a, c) = c.db ≡ f db
Effect db f (err e, c) = c.db ≡ db

abbrev pub Does : {A : Type 0} → (Db → Db) → Op A → Type 0
Does f op = (c : Conn) → Effect c.db f (op c)

module _ {A : Type 0} where
  pub changing-Does : (g : Db → Result Error A) (f : Db → Db) → Does f (changing g f)
  changing-Does g f c = go (changing g f c) refl
    where
      go : (r : Result Error A × Conn) → changing g f c ≡ r → Effect c.db f r
      go (ok a, c') e = (changing-ok g f c e).1
      go (err b, c') e = changing-err g f c e

  -- A transaction does on failure nothing, and on success what its body does then.
  pub transaction-Does :
      (f : Db → Db) (op : Op A)
      → ((c : Conn) (a : A) (c' : Conn) → Returns op c a c' → c'.db ≡ f c.db)
      → Does f (transaction op)
  transaction-Does f op body c = go (transaction op c) refl
    where
      go : (r : Result Error A × Conn) → transaction op c ≡ r → Effect c.db f r
      go (ok a, c') e =
          let (c0, c1, same, done, end) = transaction-ok op c e in
          end ∙ (body c0 a c1 done ∙ ap f same)
      go (err b, c') e = transaction-err op c e

pub execute-Does : (f : Db → Db) → Does f (execute f)
execute-Does f c = go (execute f c) refl
  where
    go : (r : Result Error (Unit {0}) × Conn) → execute f c ≡ r → Effect c.db f r
    go (ok a, c') e = execute-ok f c e
    go (err b, c') e = execute-err f c e

-- A read leaves the database.
pub query_db : {A : Type 0} (g : Db → Result Error A) (c : Conn) → (query g c).1.db ≡ c.db
unfolding query
query_db {A} g c = go (changing g (λ db. db) c) (changing-Does g (λ db. db) c)
  where
    go : (r : Result Error A × Conn) → Effect c.db (λ db. db) r → r.1.db ≡ c.db
    go (ok a, c') e = e
    go (err b, c') e = e

-- A read that meets no fault reports the value at the database.
pub query_quiet :
    {A : Type 0} (g : Db → Result Error A) (c : Conn) → c.faults ≡ [] → (query g c).0 ≡ g c.db
unfolding query changing statement answer
query_quiet {A} g c quiet =
    subst (λ faults. (run_statement (λ db. with_db db (g db)) faults c).0 ≡ g c.db) (sym quiet)
      (go (g c.db))
  where
    go : (r : Result Error A) → (answer [] c (with_db c.db r)).0 ≡ r
    go (ok a) = refl
    go (err e) = refl
