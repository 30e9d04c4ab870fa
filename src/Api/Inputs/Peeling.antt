-- ===== src/Api/Inputs/Peeling.antt =====
-- What is known of the parts of a check of internal/api/server.go that accepts.
use w8nc.Base.{◌≡◌, refl, Bool, true, false, arith}
use w8nc.Base.Result.{Result, ok, err}
use w8nc.Store.{Conn}
use w8nc.Api.{Error, Check, and_then, ◌>>=◌, checked, refuse_if}

abbrev pub Accepts : {A : Type 0} → Check A → Conn → A → Conn → Type 0
Accepts check c a c' = check c ≡ (ok a, c')

-- A chain that accepts has two parts that accept.
pub >>=-Accepts :
    {A B : Type 0} (first : Check A) (next : A → Check B) (c : Conn) {b : B} {c' : Conn}
    → Accepts (first >>= next) c b c'
    → (a : A) × (between : Conn) × Accepts first c a between × Accepts (next a) between b c'
unfolding and_then
>>=-Accepts {A} first next c {b} {c'} h = go (first c) refl h
  where
    go :
        (r : Result Error A × Conn)
        → first c ≡ r
        → and_then next r ≡ (ok b, c')
        → (a : A) × (between : Conn) × Accepts first c a between × Accepts (next a) between b c'
    go (ok a, between) e k = (a, between, e, k)
    go (err reason, between) e k = absurd (ground arith)

pub checked-Accepts :
    {E A : Type 0} (f : E → Error) (r : Result E A) (c : Conn) {a : A} {c' : Conn}
    → Accepts (checked f r) c a c'
    → r ≡ ok a
checked-Accepts f (ok b) c h = ground arith
checked-Accepts f (err e) c h = absurd (ground arith)

pub refuse_if-Accepts :
    (test : Bool) (e : Error) (c : Conn) {u : Unit {0}} {c' : Conn}
    → Accepts (refuse_if test e) c u c'
    → test ≡ false
refuse_if-Accepts true e c h = absurd (ground arith)
refuse_if-Accepts false e c h = refl
