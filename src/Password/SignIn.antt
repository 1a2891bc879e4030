-- ===== src/Password/SignIn.antt =====
-- Which sign-ins succeed, and how many passwords they compare.
use docsearch.Results.{Result}
use docsearch.Password.{
  Vault, Try, Result, succeeded, refuse, check, Error, rehash, refuse_with, Account, user_unless,
  ok, err, check_with, failed, sign_in_refused, bad_username, too_short, begun, sign_in_with,
  acquired, authenticate, try_at, released,
}
use docsearch.Prelude.{ℕ, ◌+◌, ◌≡◌, ◌∙◌, Bool, true, false, Option, none, some, Text, ap}

module _ {W : Type 0} (vault : Vault W) where
  -- The comparisons are counted by `count`, which no other call changes.
  pub record Counts (count : W → ℕ) : Type 0 where
    pub acquire_same : (w : W) → count (vault.acquire w).1 ≡ count w
    pub release_same : (w : W) → count (vault.release w) ≡ count w
    pub find_same : (name : Text) (w : W) → count (vault.find name w).1 ≡ count w
    pub begin_same : (name : Text) (t : Try) (w : W) → count (vault.begin name t w).1 ≡ count w
    pub succeed_same : (name : Text) (w : W) → count (vault.succeed name w).1 ≡ count w
    pub set_hash_same : (name hash : Text) (w : W) → count (vault.set_hash name hash w).1 ≡ count w
    pub create_hash_same : (secret : Text) (w : W) → count (vault.create_hash secret w).1 ≡ count w
    pub compare_hash_one :
        (secret hash : Text) (w : W) → count (vault.compare_hash secret hash w).1 ≡ count w + 1

  -- An answer that was reached without an error of a call.
  abbrev pub is_answer : Result Error Text → Bool
  is_answer (ok user) = true
  is_answer (err sign_in_refused) = true
  is_answer (err bad_username) = false
  is_answer (err too_short) = false
  is_answer (err (failed e)) = false

  module _ (count : W → ℕ) (counts : Counts count) where
    -- An answer took one comparison from the world `w` on.
    abbrev OneFrom : W → Result Error Text × W → Type 0
    OneFrom w r = is_answer r.0 ≡ true → count r.1 ≡ count w + 1

    succeeded-same :
        (name secret : Text) (current : Bool) (w : W)
        → count (succeeded vault name secret current w).1 ≡ count w
    unfolding succeeded
    succeeded-same name secret true w = counts.succeed_same name w
    succeeded-same name secret false w =
        by_hash (vault.create_hash secret w) (counts.create_hash_same secret w)
      where
        by_hash :
            (h : Result Text Text × W)
            → count h.1 ≡ count w
            → count (rehash vault name h).1 ≡ count w
        by_hash (err e, v) same = same
        by_hash (ok hash, v) same = counts.set_hash_same name hash v ∙ same

    refuse-one : (secret : Text) (w : W) → OneFrom w (refuse vault secret w)
    unfolding refuse
    refuse-one secret w =
        by_fit (vault.compare_hash secret vault.decoy w)
          (counts.compare_hash_one secret vault.decoy w)
      where
        by_fit :
            (r : Result Text (Bool × Bool) × W)
            → count r.1 ≡ count w + 1
            → OneFrom w (refuse_with vault r)
        by_fit (err e, v) one h = cc h
        by_fit (ok fits, v) one h = one

    check-one :
        (account : Account) (secret : Text) (w : W) → OneFrom w (check vault account secret w)
    unfolding check
    check-one account secret w =
        by_fit (vault.compare_hash secret account.hash w)
          (counts.compare_hash_one secret account.hash w)
      where
        by_end :
            (r : Option Text × W)
            → count r.1 ≡ count w + 1
            → OneFrom w (user_unless vault account.user_id r)
        by_end (none, v) one h = one
        by_end (some e, v) one h = cc h

        by_fit :
            (r : Result Text (Bool × Bool) × W)
            → count r.1 ≡ count w + 1
            → OneFrom w (check_with vault account secret r)
        by_fit (err e, v) one h = cc h
        by_fit (ok (false, current), v) one h = one
        by_fit (ok (true, current), v) one h =
            by_end (succeeded vault account.username secret current v)
              (succeeded-same account.username secret current v ∙ one) h

    begun-one :
        (account : Account) (secret : Text) (w : W) (r : Result Text Bool × W)
        → count r.1 ≡ count w
        → OneFrom w (begun vault account secret r)
    unfolding begun
    begun-one account secret w (err e, v) same h = cc h
    begun-one account secret w (ok false, v) same h = refuse-one secret v h ∙ ap (λ n. n + 1) same
    begun-one account secret w (ok true, v) same h =
        check-one account secret v h ∙ ap (λ n. n + 1) same

    sign_in_with-one :
        (secret : Text) (w : W) (r : Result Text (Option Account) × W)
        → count r.1 ≡ count w
        → OneFrom w (sign_in_with vault secret r)
    unfolding sign_in_with
    sign_in_with-one secret w (err e, v) same h = cc h
    sign_in_with-one secret w (ok none, v) same h = refuse-one secret v h ∙ ap (λ n. n + 1) same
    sign_in_with-one secret w (ok (some account), v) same h =
        begun-one account secret w (vault.begin account.username (try_at vault (vault.now v)) v)
          (counts.begin_same account.username (try_at vault (vault.now v)) v ∙ same) h

    acquired-one :
        (username secret : Text) (w : W) (r : Option Text × W)
        → count r.1 ≡ count w
        → OneFrom w (acquired vault username secret r)
    unfolding acquired released
    acquired-one username secret w (some e, v) same h = cc h
    acquired-one username secret w (none, v) same h =
        counts.release_same _
        ∙ sign_in_with-one secret w (vault.find (vault.to_lower username) v)
            (counts.find_same (vault.to_lower username) v ∙ same) h

    -- A sign-in that no call made fail compares exactly one password, whether it succeeds, the name
    -- has no account, the account is locked or the password is wrong.
    pub authenticate-one :
        (username secret : Text) (w : W)
        → is_answer (authenticate vault username secret w).0 ≡ true
        → count (authenticate vault username secret w).1 ≡ count w + 1
    unfolding authenticate
    authenticate-one username secret w h =
        acquired-one username secret w (vault.acquire w) (counts.acquire_same w) h
