-- ===== src/Examples/Accounts.antt =====
-- Sign-ins to a store with one account; the world counts comparisons.
use docsearch.Password.SignIn.{is_answer, authenticate-one, Counts}
use docsearch.Password.Allowed.{Found, authenticate-Found}
use docsearch.Password.{Account, Vault, authenticate}
use docsearch.Prelude.{ℕ, ◌+◌, ◌≡◌, refl, true, ◌&&◌, none, some, if◌then◌else◌, codes, text_eq}
use docsearch.Results.{ok}

abbrev one_account : Account
one_account = record { username = codes "ann"; user_id = codes "u1"; hash = codes "h" }

abbrev vault : Vault ℕ
vault = record {
  acquire = λ w. (none, w);
  release = λ w. w;
  find = λ name w. (ok (if text_eq name (codes "ann") then some one_account else none), w);
  begin = λ name t w. (ok true, w);
  succeed = λ name w. (none, w);
  set_hash = λ name hash w. (none, w);
  reset = λ name hash w. (none, w);
  add = λ name user hash builtin w. (none, w);
  compare_hash =
      λ secret hash w. (ok (text_eq secret (codes "s") && text_eq hash (codes "h"), true), w + 1);
  create_hash = λ secret w. (ok (codes "h"), w);
  random_id = λ w. (codes "r", w);
  now = λ w. 100;
  to_lower = λ t. t;
  decoy = codes "d";
}

vault-Counts : Counts vault (λ w. w)
vault-Counts = record {
  acquire_same = λ w. refl;
  release_same = λ w. refl;
  find_same = λ name w. refl;
  begin_same = λ name t w. refl;
  succeed_same = λ name w. refl;
  set_hash_same = λ name hash w. refl;
  create_hash_same = λ secret w. refl;
  compare_hash_one = λ secret hash w. refl;
}

no_such_name : is_answer vault (authenticate vault (codes "bob") (codes "s") 0).0 ≡ true
unfolding authenticate text_eq
no_such_name = refl

authenticate-one_example : (authenticate vault (codes "bob") (codes "s") 0).1 ≡ 0 + 1
authenticate-one_example =
    authenticate-one vault (λ w. w) vault-Counts (codes "bob") (codes "s") 0 no_such_name

signed_in : (authenticate vault (codes "ann") (codes "s") 0).0 ≡ ok (codes "u1")
unfolding authenticate text_eq
signed_in = refl

authenticate-Found_example :
    Found vault
      (codes "s")
      (vault.find (vault.to_lower (codes "ann")) (vault.acquire 0).1)
      (codes "u1")
authenticate-Found_example =
    authenticate-Found vault (codes "ann") (codes "s") (codes "u1") 0 signed_in
