-- ===== src/Examples/Syncs.antt =====
-- A sync of two documents that are shown with a library that holds three.
use docsearch.Results.{ok}
use docsearch.Sync.Plan.Run.Acts.{run-nothing_shown}
use docsearch.Sync.Plan.{is_refused, is_current, choose, plan}
use docsearch.Sync.Plan.Run.{Peers, run, read_plan}
use docsearch.Strings.{starts_with}
use docsearch.Sync.Plan.Safe.{pushes, needs_push, retires, must_go, plan-pushes, plan-retires}
use docsearch.Sync.Keys.{key_of-target}
use docsearch.Upload.{key_of, target}
use docsearch.Prelude.{
  ℕ, ◌+◌, ◌≡◌, refl, true, false, not, ◌&&◌, some, List, [], ◌∷◌, ◌==◌, is_empty, any, Text, codes,
  text_eq,
}
use docsearch.Sync.{
  key, is_active, is_failed, Options, done, failed, Options, Shown, Held, Job, Action,
}

abbrev sync_options : Options
sync_options = record {
  supports = λ name. not (is_empty name);
  prefix = codes "p";
  prefer_archive = false;
  allow_empty = false;
}

abbrev shown_doc : ℕ → ℕ → Shown
shown_doc id modified = record {
  id = id;
  modified = modified;
  archived_file_name = [];
  original_file_name = codes "f.pdf";
}

abbrev held_doc : Text → Text → ℕ → Held
held_doc doc_id source at = record { doc_id = doc_id; source = source; ingested_at = at }

abbrev two_shown : List Shown
two_shown = shown_doc 1 5 ∷ shown_doc 12 7 ∷ []

abbrev three_held : List Held
three_held =
    held_doc (codes "d1") (codes "upload:p-1") 9
    ∷ held_doc (codes "d3") (codes "upload:p-3") 2
    ∷ held_doc (codes "x") (codes "upload:q-3") 2
    ∷ []

abbrev two_jobs : List Job
two_jobs =
    (record { source = codes "upload:p-1"; status = done; permanent = false; updated_at = some 9 })
    ∷ (record {
      source = codes "upload:p-12";
      status = failed;
      permanent = true;
      updated_at = some 6;
    })
    ∷ []

key_of-target_example : key_of (target (codes "p-1")) ≡ (codes "p-1", true)
key_of-target_example = key_of-target (codes "p-1")

plan-pushes_example :
    pushes 12 (codes "f.pdf", true) (plan two_shown three_held two_jobs sync_options)
    ≡ any
        (λ d. needs_push three_held two_jobs sync_options (codes "f.pdf", true) d && d.id == 12)
        two_shown
plan-pushes_example =
    plan-pushes 12 (codes "f.pdf", true) two_shown three_held two_jobs sync_options

pushed :
    any
      (λ d. needs_push three_held two_jobs sync_options (codes "f.pdf", true) d && d.id == 12)
      two_shown
    ≡ true
unfolding text_eq target key is_active is_refused is_failed is_current choose
pushed = refl

plan-retires_example :
    retires (codes "d3") (plan two_shown three_held two_jobs sync_options)
    ≡ any
        (λ d. must_go two_shown two_jobs sync_options d && text_eq d.doc_id (codes "d3"))
        three_held
plan-retires_example = plan-retires (codes "d3") two_shown three_held two_jobs sync_options

retired :
    any (λ d. must_go two_shown two_jobs sync_options d && text_eq d.doc_id (codes "d3")) three_held
    ≡ true
unfolding starts_with target text_eq key
retired = refl

-- The world counts calls. Paperless shows nothing, and the library holds another sync's document.
abbrev empty_peers : Peers ℕ Text
empty_peers = record {
  list_shown = λ w. (ok [], w + 1);
  list_held = λ w. (ok (held_doc (codes "x") (codes "upload:q-3") 2 ∷ []), w + 1);
  list_jobs = λ completed limit w. (ok [], w + 1);
  remove = λ doc_id w. ([], w + 1);
  download = λ id original w. (ok [], w + 1);
  put = λ filename key body w. ([], w + 1);
  close = λ body w. ([], w + 1);
}

idle_run : (run empty_peers sync_options 0).0 ≡ ok []
unfolding run
idle_run = refl

run-nothing_shown_example :
    (◌≡◌ {A = List (Action × List Text)} [] [])
    × ((run empty_peers sync_options 0).1 ≡ (read_plan empty_peers sync_options 0).1)
run-nothing_shown_example = run-nothing_shown empty_peers sync_options 0 [] refl refl idle_run
