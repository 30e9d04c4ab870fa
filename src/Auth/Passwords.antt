-- ===== src/Auth/Passwords.antt =====
-- The passwords of internal/auth/auth.go: their hashes, and the generated ones.
use w8nc.Base.{ℕ, Bool, true, false, []}
use w8nc.Base.Result.{Result, ok, err}
use w8nc.Base.Text.{Text, text_eq}
use w8nc.Store
use w8nc.Store.{no_rows, User}
use w8nc.Store.Users.{primary_user, create_single_user, reset_to_single_user}
use w8nc.Auth.RateLimiter.{reset_all}
use w8nc.Auth.{
  World, no_randomness, no_hash, of_store, Call, ◌>>=◌, pure, fail, of_op, or_fail, encoded,
  single_user_name,
}

pub record BootstrapResult : Type 0 where
  pub generated : Bool
  pub password : Text
  pub legacy_reset : Bool

-- HashPassword
abbrev pub hash_password : World → Text → Call Text
hash_password w password = or_fail no_hash (w.generate_from_password password)

-- GeneratePassword
abbrev pub generate_password : World → Call Text
generate_password w = or_fail no_randomness (encoded (w.random 24))

-- `m.RateLimiter.ResetAll()`
abbrev pub forget_failures : Call (Unit {0})
forget_failures m = (ok tt, record m { rate_limiter = (reset_all m.rate_limiter).1 })

-- A result of the store as a value of the call.
abbrev pub attempt : {A : Type 0} → Store.Op A → Call (Result Store.Error A)
attempt op m = (ok (op m.store).0, record m { store = (op m.store).1 })

abbrev pub install : World → ℕ → Text → Text → Result Store.Error User → Call BootstrapResult
install w now password hash (ok user) = do
  _ ← of_op (reset_to_single_user user.id single_user_name hash)
  pure (record { generated = true; password = password; legacy_reset = true })
install w now password hash (err Store.Error.no_rows) = do
  _ ← of_op (create_single_user w.new_id now single_user_name hash)
  pure (record { generated = true; password = password; legacy_reset = false })
install w now password hash (err Store.Error.invalid_state) =
    fail (of_store Store.Error.invalid_state)
install w now password hash (err Store.Error.failed) = fail (of_store Store.Error.failed)
install w now password hash (err (Store.Error.bad_tags e)) =
    fail (of_store (Store.Error.bad_tags e))

-- `err == nil && user.Username == singleUserName`
abbrev pub is_local : Result Store.Error User → Bool
is_local (ok user) = text_eq user.username single_user_name
is_local (err e) = false

-- The part of BootstrapPassword behind the first return.
unfoldable pub generate_and_install : World → ℕ → Result Store.Error User → Call BootstrapResult
generate_and_install w now found = do
  password ← generate_password w
  hash ← hash_password w password
  install w now password hash found

abbrev pub bootstrap_from : World → ℕ → Result Store.Error User → Call BootstrapResult
bootstrap_from w now found = elim (is_local found) [
  | true ↦ pure (record { generated = false; password = []; legacy_reset = false })
  | false ↦ generate_and_install w now found
]

-- BootstrapPassword
unfoldable pub bootstrap_password : World → ℕ → Call BootstrapResult
bootstrap_password w now = do found ← attempt primary_user; bootstrap_from w now found

-- What SetGeneratedPassword does with the user it finds, up to the reset of the limiter.
abbrev pub replace_password : World → ℕ → Text → Result Store.Error User → Call (Unit {0})
replace_password w now hash (ok user) = of_op (reset_to_single_user user.id single_user_name hash)
replace_password w now hash (err Store.Error.no_rows) = do
  _ ← of_op (create_single_user w.new_id now single_user_name hash)
  pure tt
replace_password w now hash (err Store.Error.invalid_state) =
    fail (of_store Store.Error.invalid_state)
replace_password w now hash (err Store.Error.failed) = fail (of_store Store.Error.failed)
replace_password w now hash (err (Store.Error.bad_tags e)) =
    fail (of_store (Store.Error.bad_tags e))

-- SetGeneratedPassword
unfoldable pub set_generated_password : World → ℕ → Call Text
set_generated_password w now = do
  password ← generate_password w
  hash ← hash_password w password
  found ← attempt primary_user
  _ ← replace_password w now hash found
  _ ← forget_failures
  pure password
