-- ===== src/Store.antt =====
-- internal/db/db.go: the tables, and statements and transactions on them. A table is the list of its
-- rows. Each statement may fail; the list of faults says which of the next statements do.
pub mod Rules
pub mod Rows
pub mod Endpoints
pub mod Record
pub mod Events
pub mod Screenshots
pub mod Runtime
pub mod Each
pub mod Consistency
pub mod Recording
pub mod Locking
pub mod Logging
pub mod Once
pub mod Race
pub mod Settings
pub mod Listing
pub mod Users
pub mod Labels
pub mod Editing
pub mod Secrets
mod Tests
use w8nc.Base.{Bool, true, false, List, [], ◌∷◌, ℕ, ◌+◌, Option, if◌then◌else◌}
use w8nc.Base.Result.{Result, ok, err}
use w8nc.Base.Text.{Text}
use w8nc.Models.{Endpoint, EndpointCheck, NotificationEvent, ScreenshotAttempt}
use w8nc.Models.Tags

-- `pgx.ErrNoRows`, `ErrInvalidState`, every other error of the database, and an error of
-- NormalizeTagInputs.
pub data Error : Type 0 where
  no_rows invalid_state failed : Error
  bad_tags : Tags.Error → Error

-- The row of `notification_settings`.
pub record SettingsRow : Type 0 where
  pub telegram_enabled : Bool
  pub telegram_api_key_encrypted : Option Text
  pub telegram_chat_id : Option Text
  pub telegram_parse_mode : Text
  pub timezone : Option Text
  pub proxy_enabled : Bool
  pub proxy_address : Option Text
  pub proxy_username : Option Text
  pub proxy_password_encrypted : Option Text
  pub updated_at : ℕ

-- A row of `users`; nothing reads `updated_at`.
pub record User : Type 0 where
  pub id : Text
  pub username : Text
  pub password_hash : Text
  pub created_at : ℕ

-- A row of `sessions`; its own id is never read.
pub record Session : Type 0 where
  pub user_id : Text
  pub token_hash : Text
  pub expires_at : ℕ

-- A row of `tags`.
pub record TagRow : Type 0 where
  pub id : Text
  pub name : Text
  pub color : Text
  pub created_at : ℕ
  pub updated_at : ℕ

-- A row of `endpoint_tags`.
pub record EndpointTag : Type 0 where
  pub endpoint_id : Text
  pub tag_id : Text

pub record Db : Type 0 where
  pub endpoints : List Endpoint
  pub endpoint_checks : List EndpointCheck
  pub notification_events : List NotificationEvent
  pub screenshot_attempts : List ScreenshotAttempt
  pub last_seen_at : Option ℕ
  pub notification_settings : Option SettingsRow
  pub users : List User
  pub sessions : List Session
  pub tags : List TagRow
  pub endpoint_tags : List EndpointTag

-- The database, and for each statement to come whether it fails. Beyond the list none does.
pub record Conn : Type 0 where
  pub db : Db
  pub faults : List Bool

abbrev pub Op : Type 0 → Type 0
Op A = Conn → Result Error A × Conn

abbrev pub pure : {A : Type 0} → A → Op A
pure a c = (ok a, c)

abbrev pub fail : {A : Type 0} → Error → Op A
fail e c = (err e, c)

-- `if err != nil { return err }`
unfoldable pub and_then :
    {A B : Type 0} → (A → Op B) → Result Error A × Conn → Result Error B × Conn
and_then f (ok a, c) = f a c
and_then f (err e, c) = (err e, c)

-- `if test { ... }`
abbrev pub when : Bool → Op (Unit {0}) → Op (Unit {0})
when true op = op
when false op = pure tt

infixl 5 ◌>>=◌
abbrev pub ◌>>=◌ : {A B : Type 0} → Op A → (A → Op B) → Op B
◌>>=◌ m f c = and_then f (m c)

infixl 5 ◌>>◌
abbrev pub ◌>>◌ : {B : Type 0} → Op (Unit {0}) → Op B → Op B
first >> next = first >>= (λ done. next)

unfoldable pub answer :
    {A : Type 0} → List Bool → Conn → Result Error (A × Db) → Result Error A × Conn
answer faults c (ok (a, db)) = (ok a, record { db = db; faults = faults })
answer faults c (err e) = (err e, record c { faults = faults })

-- One statement: it fails and changes nothing, or does what it says.
unfoldable pub run_statement :
    {A : Type 0} → (Db → Result Error (A × Db)) → List Bool → Conn → Result Error A × Conn
unfolding answer
run_statement f [] c = answer [] c (f c.db)
run_statement f (true ∷ faults) c = (err failed, record c { faults = faults })
run_statement f (false ∷ faults) c = answer faults c (f c.db)

unfoldable pub statement : {A : Type 0} → (Db → Result Error (A × Db)) → Op A
unfolding run_statement
statement f c = run_statement f c.faults c

-- A statement that changes rows and reports something about the old ones.
unfoldable pub returning : {A : Type 0} → (Db → A) → (Db → Db) → Op A
unfolding statement
returning g f = statement (λ db. ok (g db, f db))

-- A statement that changes rows and returns nothing.
unfoldable pub execute : (Db → Db) → Op (Unit {0})
unfolding returning
execute f = returning (λ db. tt) f

abbrev pub with_db : {A : Type 0} → Db → Result Error A → Result Error (A × Db)
with_db db (ok a) = ok (a, db)
with_db db (err e) = err e

-- A statement that fails on this error, or else changes rows.
unfoldable pub changing : {A : Type 0} → (Db → Result Error A) → (Db → Db) → Op A
unfolding statement
changing g f = statement (λ db. with_db (f db) (g db))

-- A statement that reads.
unfoldable pub query : {A : Type 0} → (Db → Result Error A) → Op A
unfolding changing
query g = changing g (λ db. db)

unfoldable pub rolled_back : {A : Type 0} → Db → Result Error A × Conn → Result Error A × Conn
rolled_back saved (ok a, c) = (ok a, c)
rolled_back saved (err e, c) = (err e, record c { db = saved })

-- COMMIT, and the result of the body.
unfoldable pub commit : {A : Type 0} → A → Op A
unfolding execute and_then
commit a = do execute (λ db. db); pure a

-- BEGIN, the body and COMMIT.
unfoldable pub bracketed : {A : Type 0} → Op A → Op A
unfolding commit
bracketed op = do execute (λ db. db); a ← op; commit a

-- On an error the deferred rollback restores the database.
unfoldable pub transaction : {A : Type 0} → Op A → Op A
unfolding rolled_back bracketed
transaction op c = rolled_back c.db (bracketed op c)

-- UPDATE table SET ... WHERE ...
unfoldable pub update_where : {A : Type 0} → (A → Bool) → (A → A) → List A → List A
update_where p f [] = []
update_where p f (x ∷ xs) = (if p x then f x else x) ∷ update_where p f xs

-- The rows that an UPDATE affects.
unfoldable pub count_where : {A : Type 0} → (A → Bool) → List A → ℕ
count_where p [] = 0
count_where p (x ∷ xs) = (if p x then 1 else 0) + count_where p xs

-- SELECT ... WHERE ... of at most one row.
unfoldable pub find_row : {A : Type 0} → (A → Bool) → List A → Result Error A
find_row p [] = err no_rows
find_row p (x ∷ xs) = let rest = find_row p xs in if p x then ok x else rest
