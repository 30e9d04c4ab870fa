-- ===== src/Store/Rules/Ensuring.antt =====
-- What holds once an operation of internal/db/db.go succeeds.
use w8nc.Base.{◌≡◌, refl, ap, subst, sym, ◌⊎◌, inl, inr, Bool, true, false, List, [], ◌∷◌}
use w8nc.Base.Result.{Result, ok, err}
use w8nc.Store.{
  Error, Db, Conn, Op, and_then, ◌>>=◌, answer, run_statement, statement, transaction, execute,
  returning, changing, with_db,
}
use w8nc.Store.Rules.Keeping.{Keeps}
use w8nc.Store.Rules.Returning.{Returns, Fails, transaction-ok, transaction-err}

-- What holds of the database if the operation succeeds.
abbrev pub Post : {A : Type 0} → (Db → Type 0) → Result Error A × Conn → Type 0
Post Q (ok a, c) = Q c.db
Post Q (err e, c) = Unit

abbrev pub Ensures : {A : Type 0} → (Db → Type 0) → Op A → (Db → Type 0) → Type 0
Ensures P op Q = (c : Conn) → P c.db → Post Q (op c)

module _ {A : Type 0} (P Q : Db → Type 0) where
  pub Ensures_of_Keeps : (op : Op A) → Keeps P op → ((db : Db) → P db → Q db) → Ensures P op Q
  Ensures_of_Keeps op keep weaker c h = go (op c) (keep c h)
    where
      go : (r : Result Error A × Conn) → P r.1.db → Post Q r
      go (ok a, c') k = weaker c'.db k
      go (err e, c') k = tt

  -- On success a transaction leaves what its body ensures, on failure the old database.
  pub transaction-Ensures :
      (op : Op A)
      → Ensures P op Q
      → (c : Conn) → P c.db
      → (((a : A) × (c' : Conn) × Returns (transaction op) c a c' × Q c'.db)
          ⊎ ((e : Error) × (c' : Conn) × Fails (transaction op) c e c' × (c'.db ≡ c.db)))
  transaction-Ensures op ensure c h = go (transaction op c) refl
    where
      go :
          (r : Result Error A × Conn)
          → transaction op c ≡ r
          → (((a : A) × (c' : Conn) × Returns (transaction op) c a c' × Q c'.db)
              ⊎ ((e : Error) × (c' : Conn) × Fails (transaction op) c e c' × (c'.db ≡ c.db)))
      go (ok a, c') e =
          let (c0, c1, same, done, end) = transaction-ok op c e in
          inl (a, c', e, subst Q (sym end) (subst (Post Q) done (ensure c0 (subst P (sym same) h))))
      go (err b, c') e = inr (b, c', e, transaction-err op c e)

pub execute-Ensures :
    (P Q : Db → Type 0) (f : Db → Db) → ((db : Db) → P db → Q (f db)) → Ensures P (execute f) Q
unfolding execute returning statement answer
execute-Ensures P Q f k c h = go c.faults
  where
    go : (faults : List Bool) → Post Q (run_statement (λ db. ok (tt, f db)) faults c)
    go [] = k c.db h
    go (true ∷ faults) = tt
    go (false ∷ faults) = k c.db h

module _ {A : Type 0} (P Q : Db → Type 0) where
  pub changing-Ensures :
      (g : Db → Result Error A) (f : Db → Db)
      → ((db : Db) (a : A) → g db ≡ ok a → P db → Q (f db))
      → Ensures P (changing g f) Q
  unfolding changing statement answer
  changing-Ensures g f k c h = go c.faults
    where
      done :
          (faults : List Bool) (r : Result Error A)
          → g c.db ≡ r
          → Post Q (answer faults c (with_db (f c.db) r))
      done faults (ok a) e = k c.db a e h
      done faults (err b) e = tt

      go : (faults : List Bool) → Post Q (run_statement (λ db. with_db (f db) (g db)) faults c)
      go [] = done [] (g c.db) refl
      go (true ∷ faults) = tt
      go (false ∷ faults) = done faults (g c.db) refl

module _ {A B : Type 0} (P R Q : Db → Type 0) where
  pub >>=-Ensures :
      (m : Op A) (f : A → Op B)
      → Ensures P m R
      → ((a : A) → Ensures R (f a) Q)
      → Ensures P (m >>= f) Q
  unfolding and_then
  >>=-Ensures m f hm hf c h = go (m c) (hm c h)
    where
      go : (r : Result Error A × Conn) → Post R r → Post Q (and_then f r)
      go (ok a, c') k = hf a c' k
      go (err e, c') k = tt

-- On success what the body ensures, on failure what held before.
pub transaction_result :
    {A : Type 0} (P Q : Db → Type 0) (op : Op A)
    → Ensures P op Q
    → ((db : Db) → P db → Q db)
    → (c : Conn) → P c.db
    → Q (transaction op c).1.db
transaction_result P Q op ensure weaker c h = elim (transaction-Ensures P Q op ensure c h) [
  | inl (a, c', e, q) ↦ subst Q (ap (λ r. r.1.db) (sym e)) q
  | inr (b, c', e, same) ↦ subst Q (ap (λ r. r.1.db) (sym e)) (subst Q (sym same) (weaker c.db h))
]

-- A successful run, for a postcondition of all successful runs.
pub Ensures-Returns :
    {A : Type 0} (P Q : Db → Type 0) (op : Op A) (c : Conn) {a : A} {c' : Conn}
    → Ensures P op Q
    → P c.db
    → Returns op c a c'
    → Q c'.db
Ensures-Returns P Q op c ensure h e = subst (Post Q) e (ensure c h)
