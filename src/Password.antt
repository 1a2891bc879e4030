-- ===== src/Password.antt =====
-- internal/password/password.go: accounts, and the policy of signing in over a store.
pub mod SignIn
pub mod Allowed
use docsearch.Results.{Result, ok, err}
use docsearch.Prelude.{
  ℕ, ◌+◌, Bool, true, false, not, ◌&&◌, ◌||◌, Option, none, some, arith, ltb, leb, ◌==◌,
  if◌then◌else◌, length, any, Text, codes,
}

abbrev pub lock_threshold : ℕ
lock_threshold = 5

-- In minutes.
abbrev pub lock_duration : ℕ
lock_duration = 15

abbrev pub min_length : ℕ
min_length = 12

abbrev builtin_user : Text
builtin_user = codes "default"

pub record Account : Type 0 where
  pub username : Text
  pub user_id : Text
  pub hash : Text

pub record Try : Type 0 where
  pub at : ℕ
  pub lock_until : ℕ
  pub threshold : ℕ

pub data Error : Type 0 where
  sign_in_refused bad_username too_short : Error
  failed : Text → Error

-- The store, argon2id, the semaphore, the clock and `strings.ToLower`. A comparison answers whether
-- the password fits and whether the hash was made under the current costs.
pub record Vault (W : Type 0) : Type 0 where
  pub acquire : W → Option Text × W
  pub release : W → W
  pub find : Text → W → Result Text (Option Account) × W
  pub begin : Text → Try → W → Result Text Bool × W
  pub succeed : Text → W → Option Text × W
  pub set_hash : Text → Text → W → Option Text × W
  pub reset : Text → Text → W → Option Text × W
  pub add : Text → Text → Text → Bool → W → Option Text × W
  pub compare_hash : Text → Text → W → Result Text (Bool × Bool) × W
  pub create_hash : Text → W → Result Text Text × W
  pub random_id : W → Text × W
  pub now : W → ℕ
  pub to_lower : Text → Text
  pub decoy : Text

module _ {W : Type 0} (vault : Vault W) where
  -- What a comparison with the decoy comes to.
  unfoldable pub refuse_with : Result Text (Bool × Bool) × W → Result Error Text × W
  refuse_with (err e, w) = (err (failed e), w)
  refuse_with (ok fits, w) = (err sign_in_refused, w)

  unfoldable pub refuse : Text → W → Result Error Text × W
  unfolding refuse_with
  refuse secret w = refuse_with (vault.compare_hash secret vault.decoy w)

  unfoldable pub rehash : Text → Result Text Text × W → Option Text × W
  rehash username (err e, w) = (some e, w)
  rehash username (ok hash, w) = vault.set_hash username hash w

  unfoldable pub succeeded : Text → Text → Bool → W → Option Text × W
  unfolding rehash
  succeeded username secret current w =
      if current then vault.succeed username w else rehash username (vault.create_hash secret w)

  abbrev pub user_unless : Text → Option Text × W → Result Error Text × W
  user_unless user_id (none, w) = (ok user_id, w)
  user_unless user_id (some e, w) = (err (failed e), w)

  unfoldable pub check_with : Account → Text → Result Text (Bool × Bool) × W → Result Error Text × W
  unfolding succeeded
  check_with account secret (err e, w) = (err (failed e), w)
  check_with account secret (ok (false, current), w) = (err sign_in_refused, w)
  check_with account secret (ok (true, current), w) =
      user_unless account.user_id (succeeded account.username secret current w)

  unfoldable pub check : Account → Text → W → Result Error Text × W
  unfolding check_with
  check account secret w = check_with account secret (vault.compare_hash secret account.hash w)

  unfoldable pub begun : Account → Text → Result Text Bool × W → Result Error Text × W
  unfolding check refuse
  begun account secret (err e, w) = (err (failed e), w)
  begun account secret (ok false, w) = refuse secret w
  begun account secret (ok true, w) = check account secret w

  unfoldable pub try_at : ℕ → Try
  try_at at = record { at = at; lock_until = at + lock_duration; threshold = lock_threshold }

  unfoldable pub sign_in_with : Text → Result Text (Option Account) × W → Result Error Text × W
  unfolding begun refuse try_at
  sign_in_with secret (err e, w) = (err (failed e), w)
  sign_in_with secret (ok none, w) = refuse secret w
  sign_in_with secret (ok (some account), w) =
      begun account secret (vault.begin account.username (try_at (vault.now w)) w)

  unfoldable pub released : Result Error Text × W → Result Error Text × W
  released (r, w) = (r, vault.release w)

  unfoldable pub acquired : Text → Text → Option Text × W → Result Error Text × W
  unfolding sign_in_with released
  acquired username secret (some e, w) = (err (failed e), w)
  acquired username secret (none, w) =
      released (sign_in_with secret (vault.find (vault.to_lower username) w))

  unfoldable pub authenticate : Text → Text → W → Result Error Text × W
  unfolding acquired
  authenticate username secret w = acquired username secret (vault.acquire w)

  abbrev pub is_name_rune : ℕ → Bool
  is_name_rune c =
      (leb 97 c && leb c 122) || ((leb 48 c && leb c 57) || (c == 46 || (c == 95 || c == 45)))

  unfoldable pub is_username : Text → Bool
  is_username name =
      leb 1 (length name) && (leb (length name) 64 && not (any (λ c. not (is_name_rune c)) name))

  unfoldable pub hash_with : Result Text Text × W → Result Error Text × W
  hash_with (err e, w) = (err (failed e), w)
  hash_with (ok hash, w) = (ok hash, w)

  unfoldable pub hash_of : Text → W → Result Error Text × W
  unfolding hash_with
  hash_of secret w =
      if ltb (length secret) min_length
      then (err too_short, w)
      else hash_with (vault.create_hash secret w)

  abbrev pub done_unless : Option Text × W → Result Error Unit × W
  done_unless (none, w) = (ok tt, w)
  done_unless (some e, w) = (err (failed e), w)

  unfoldable pub add_hashed : Text → Bool → Result Error Text × W → Result Error Unit × W
  add_hashed username builtin (err e, w) = (err e, w)
  add_hashed username builtin (ok hash, w) =
      let fresh = vault.random_id w in
      if builtin
      then done_unless (vault.add username builtin_user hash builtin w)
      else done_unless (vault.add username (vault.to_lower fresh.0) hash builtin fresh.1)

  unfoldable pub add_account : Text → Text → Bool → W → Result Error Unit × W
  unfolding is_username hash_of add_hashed
  add_account username secret builtin w =
      if not (is_username username)
      then (err bad_username, w)
      else add_hashed username builtin (hash_of secret w)

  unfoldable pub reset_hashed : Text → Result Error Text × W → Result Error Unit × W
  reset_hashed username (err e, w) = (err e, w)
  reset_hashed username (ok hash, w) = done_unless (vault.reset username hash w)

  unfoldable pub set_password : Text → Text → W → Result Error Unit × W
  unfolding hash_of reset_hashed
  set_password username secret w = reset_hashed username (hash_of secret w)
