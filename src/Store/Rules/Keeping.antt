-- ===== src/Store/Rules/Keeping.antt =====
-- What every statement keeps, every operation of internal/db/db.go keeps.
use w8nc.Base.{◌≡◌, refl, ap, subst, Bool, true, false, List, [], ◌∷◌, arith}
use w8nc.Base.Result.{Result, ok, err, ok-injective}
use w8nc.Store.{
  Error, Db, Conn, Op, and_then, ◌>>=◌, when, answer, run_statement, statement, rolled_back,
  transaction, execute, returning, changing, with_db, query, pure, commit, bracketed,
}

-- The operation leaves a database with the property in such a database, if it fails too.
abbrev pub Keeps : {A : Type 0} → (Db → Type 0) → Op A → Type 0
Keeps P op = (c : Conn) → P c.db → P (op c).1.db

module _ {A : Type 0} (P : Db → Type 0) where
  answer-Keeps :
      (faults : List Bool) (c : Conn) (r : Result Error (A × Db))
      → ((a : A) (db : Db) → r ≡ ok (a, db) → P db)
      → P c.db
      → P (answer faults c r).1.db
  unfolding answer
  answer-Keeps faults c (ok (a, db)) keep h = keep a db refl
  answer-Keeps faults c (err e) keep h = h

  pub statement-Keeps :
      (f : Db → Result Error (A × Db))
      → ((db db' : Db) (a : A) → P db → f db ≡ ok (a, db') → P db')
      → Keeps P (statement f)
  unfolding statement
  statement-Keeps f keep c h = go c.faults
    where
      go : (faults : List Bool) → P (run_statement f faults c).1.db
      go [] = answer-Keeps [] c (f c.db) (λ a db e. keep c.db db a h e) h
      go (true ∷ faults) = h
      go (false ∷ faults) = answer-Keeps faults c (f c.db) (λ a db e. keep c.db db a h e) h

  pub pure-Keeps : (a : A) → Keeps P (λ c. (ok a, c))
  pure-Keeps a c h = h

  pub returning-Keeps :
      (g : Db → A) (f : Db → Db) → ((db : Db) → P db → P (f db)) → Keeps P (returning g f)
  unfolding returning
  returning-Keeps g f keep =
      statement-Keeps (λ db. ok (g db, f db))
        (λ db db' a h e. subst P (ap (λ p. p.1) (ok-injective e)) (keep db h))

  pub changing-Keeps :
      (g : Db → Result Error A) (f : Db → Db)
      → ((db : Db) (a : A) → g db ≡ ok a → P db → P (f db))
      → Keeps P (changing g f)
  unfolding changing
  changing-Keeps g f keep =
      statement-Keeps (λ db. with_db (f db) (g db)) (λ db db' a h e. same db db' a h (g db) refl e)
    where
      same :
          (db db' : Db) (a : A)
          → P db
          → (r : Result Error A) → g db ≡ r
          → with_db (f db) r ≡ ok (a, db')
          → P db'
      same db db' a h (ok b) found e = subst P (ap (λ p. p.1) (ok-injective e)) (keep db b found h)
      same db db' a h (err b) found e = absurd (ground arith)

  pub query-Keeps : (g : Db → Result Error A) → Keeps P (query g)
  unfolding query
  query-Keeps g = changing-Keeps g (λ db. db) (λ db a e h. h)

module _ {A B : Type 0} (P : Db → Type 0) where
  pub >>=-Keeps :
      (m : Op A) (f : A → Op B) → Keeps P m → ((a : A) → Keeps P (f a)) → Keeps P (m >>= f)
  unfolding and_then
  >>=-Keeps m f hm hf c h = go (m c) (hm c h)
    where
      go : (r : Result Error A × Conn) → P r.1.db → P (and_then f r).1.db
      go (ok a, c') k = hf a c' k
      go (err e, c') k = k

module _ (P : Db → Type 0) where
  pub execute-Keeps : (f : Db → Db) → ((db : Db) → P db → P (f db)) → Keeps P (execute f)
  unfolding execute
  execute-Keeps f keep = returning-Keeps P (λ db. tt) f keep

  pub when-Keeps : (b : Bool) (op : Op (Unit {0})) → Keeps P op → Keeps P (when b op)
  when-Keeps true op k = k
  when-Keeps false op k = pure-Keeps P tt

  pub transaction-Keeps : {A : Type 0} (op : Op A) → Keeps P op → Keeps P (transaction op)
  unfolding transaction bracketed commit
  transaction-Keeps {A} op keep c h = go c.db h (bracketed op c) (
      >>=-Keeps P (execute (λ db. db)) (λ _. op >>= commit) begin
        (λ _.
          >>=-Keeps P op commit keep
            (λ a. >>=-Keeps P (execute (λ db. db)) (λ _. pure a) begin (λ _. pure-Keeps P a)))
        c h)
    where
      begin : Keeps P (execute (λ db. db))
      begin = execute-Keeps (λ db. db) (λ db k. k)

      go :
          (saved : Db)
          → P saved
          → (r : Result Error A × Conn) → P r.1.db
          → P (rolled_back saved r).1.db
      go saved h (ok a, c') k = k
      go saved h (err e, c') k = h

-- What a sequence leaves, if its first part keeps a property from which the rest leaves it.
pub >>=-result :
    {A B : Type 0} (P Q : Db → Type 0) (m : Op A) (f : A → Op B)
    → Keeps P m
    → ((a : A) (c : Conn) → P c.db → Q (f a c).1.db)
    → ((db : Db) → P db → Q db)
    → (c : Conn) → P c.db
    → Q ((m >>= f) c).1.db
unfolding and_then
>>=-result {A} P Q m f keep rest weaker c h = go (m c) (keep c h)
  where
    go : (r : Result Error A × Conn) → P r.1.db → Q (and_then f r).1.db
    go (ok a, c') k = rest a c' k
    go (err e, c') k = weaker c'.db k
