-- ===== src/Password/Allowed.antt =====
-- What a sign-in that succeeds rests on.
use docsearch.Results.{Result, ok, ok-injective}
use docsearch.Password.{
  Vault, Account, Result, user_unless, check_with, refuse_with, begun, sign_in_with, acquired,
  authenticate, ok, refuse, released, try_at, check, err, succeeded,
}
use docsearch.Prelude.{◌≡◌, refl, ◌≢◌, Bool, true, false, Option, none, some, Text}

module _ {W : Type 0} (vault : Vault W) where
  -- The password fits the account's hash, and the account is the user's.
  abbrev pub Fits : Account → Text → W → Text → Type 0
  Fits account secret w user =
      (current : Bool) × ((vault.compare_hash secret account.hash w).0 ≡ ok (true, current))
      × (account.user_id ≡ user)

  -- The account was not locked when the attempt was counted, and the password fits.
  abbrev pub Begun : Account → Text → Result Text Bool × W → Text → Type 0
  Begun account secret r user = (r.0 ≡ ok true) × Fits account secret r.1 user

  -- The name has an account, the account was not locked, and the password fits.
  abbrev pub Found : Text → Result Text (Option Account) × W → Text → Type 0
  Found secret r user =
      (account : Account) × (r.0 ≡ ok (some account))
      × Begun account secret (vault.begin account.username (try_at vault (vault.now r.1)) r.1) user

  user_unless-eq-ok :
      (user_id user : Text) (r : Option Text × W)
      → (user_unless vault user_id r).0 ≡ ok user
      → user_id ≡ user
  user_unless-eq-ok user_id user (none, w) h = ok-injective h
  user_unless-eq-ok user_id user (some e, w) h = cc h

  check_with-eq-ok :
      (account : Account) (secret user : Text) (r : Result Text (Bool × Bool) × W)
      → (check_with vault account secret r).0 ≡ ok user
      → (current : Bool) × (r.0 ≡ ok (true, current)) × (account.user_id ≡ user)
  unfolding check_with
  check_with-eq-ok account secret user (err e, w) h = cc h
  check_with-eq-ok account secret user (ok (false, current), w) h = cc h
  check_with-eq-ok account secret user (ok (true, current), w) h = (
    current,
    refl,
    user_unless-eq-ok account.user_id user (succeeded vault account.username secret current w) h,
  )

  refuse_with-ne-ok :
      (user : Text) (r : Result Text (Bool × Bool) × W) → (refuse_with vault r).0 ≢ ok user
  unfolding refuse_with
  refuse_with-ne-ok user (err e, w) h = cc h
  refuse_with-ne-ok user (ok fits, w) h = cc h

  begun-eq-ok :
      (account : Account) (secret user : Text) (r : Result Text Bool × W)
      → (begun vault account secret r).0 ≡ ok user
      → Begun account secret r user
  unfolding begun refuse check
  begun-eq-ok account secret user (err e, w) h = cc h
  begun-eq-ok account secret user (ok false, w) h =
      absurd (refuse_with-ne-ok user (vault.compare_hash secret vault.decoy w) h)
  begun-eq-ok account secret user (ok true, w) h =
      (refl, check_with-eq-ok account secret user (vault.compare_hash secret account.hash w) h)

  sign_in_with-eq-ok :
      (secret user : Text) (r : Result Text (Option Account) × W)
      → (sign_in_with vault secret r).0 ≡ ok user
      → Found secret r user
  unfolding sign_in_with refuse
  sign_in_with-eq-ok secret user (err e, w) h = cc h
  sign_in_with-eq-ok secret user (ok none, w) h =
      absurd (refuse_with-ne-ok user (vault.compare_hash secret vault.decoy w) h)
  sign_in_with-eq-ok secret user (ok (some account), w) h = (
    account,
    refl,
    begun-eq-ok account secret user (vault.begin account.username (try_at vault (vault.now w)) w) h,
  )

  acquired-eq-ok :
      (username secret user : Text) (r : Option Text × W)
      → (acquired vault username secret r).0 ≡ ok user
      → Found secret (vault.find (vault.to_lower username) r.1) user
  unfolding acquired released
  acquired-eq-ok username secret user (some e, w) h = cc h
  acquired-eq-ok username secret user (none, w) h =
      sign_in_with-eq-ok secret user (vault.find (vault.to_lower username) w) h

  -- A sign-in succeeds only as the user of the account that the store has under the lower-case name,
  -- when the store counted the attempt and found the account not locked, and the password then
  -- fitted that account's hash.
  pub authenticate-Found :
      (username secret user : Text) (w : W)
      → (authenticate vault username secret w).0 ≡ ok user
      → Found secret (vault.find (vault.to_lower username) (vault.acquire w).1) user
  unfolding authenticate
  authenticate-Found username secret user w h =
      acquired-eq-ok username secret user (vault.acquire w) h
