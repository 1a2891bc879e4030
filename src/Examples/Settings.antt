-- ===== src/Examples/Settings.antt =====
-- Changes of settings, in a small file and in a store.
use docsearch.Settings.Diff.{lines_of, changed_lines}
use docsearch.Maps.{get, assign}
use docsearch.Settings.Tree.Laws.{opens, commented, set-lost, lookup-set}
use docsearch.Settings.Update.Checked.{is_refused_change, update-refused}
use docsearch.Settings.Scalar.{Style, scalar_end}
use docsearch.Settings.Diff.Longest.{changed_lines-fewest}
use docsearch.Settings.Diff.Numbers.{Ascends, unlisted}
use docsearch.Settings.Diff.Common.{Sub}
use docsearch.Prelude.{
  ℕ, ◌+◌, ◌≤◌, ◌≡◌, refl, inr, true, false, none, some, List, [], ◌∷◌, length, any, Text, codes,
}
use docsearch.Settings.Tree.{mapping, scalar, Node, find_value, lookup, node, set, nil, cons}
use docsearch.Settings.Update.{
  from_file, Places, Editable, Origin, Change, check, Error, part_changes, update_settings, words,
  typed,
}
use docsearch.Results.{ok, err}

abbrev old_file : Text
old_file = codes "a\nb\nc\n"

abbrev new_file : Text
new_file = codes "a\nx\nc\n"

held_before : Sub (codes "a" ∷ []) (lines_of old_file)
unfolding lines_of
held_before = inr (refl, tt)

held_after : Sub (codes "a" ∷ []) (lines_of new_file)
unfolding lines_of
held_after = inr (refl, tt)

changed_lines-fewest_example :
    Ascends 0 (changed_lines old_file new_file)
    × (length (changed_lines old_file new_file)
          + length (unlisted 0 (changed_lines old_file new_file) (lines_of new_file))
        ≡ length (lines_of new_file))
    × Sub (unlisted 0 (changed_lines old_file new_file) (lines_of new_file)) (lines_of old_file)
    × (1 ≤ length (unlisted 0 (changed_lines old_file new_file) (lines_of new_file)))
changed_lines-fewest_example =
    changed_lines-fewest old_file new_file (codes "a" ∷ []) held_before held_after

abbrev leaf : Text → Text → Node
leaf text comment = node scalar (codes "!!str") text comment nil

abbrev config_file : Node
config_file = node mapping [] [] [] (
    cons (leaf (codes "auth") []) (
      cons
        (node mapping [] [] []
          (cons (leaf (codes "mode") []) (cons (leaf (codes "off") (codes "# todo")) nil)))
        (cons (leaf (codes "port") []) (cons (leaf (codes "80") []) nil))))

config_opens : opens (codes "auth" ∷ codes "mode" ∷ []) config_file ≡ true
unfolding find_value
config_opens = refl

lookup-set_example :
    lookup
      (codes "auth" ∷ codes "mode" ∷ [])
      (set (codes "auth" ∷ codes "mode" ∷ []) (leaf (codes "oidc") []) config_file)
    ≡ some
        (commented (leaf (codes "oidc") []) (lookup (codes "auth" ∷ codes "mode" ∷ []) config_file))
lookup-set_example =
    lookup-set (codes "auth") (codes "mode" ∷ []) (leaf (codes "oidc") []) config_file config_opens

port_found : lookup (codes "port" ∷ []) config_file ≡ some (leaf (codes "80") [])
unfolding lookup
port_found = refl

set-lost_example :
    lookup
      (codes "port" ∷ codes "http" ∷ [])
      (set (codes "port" ∷ codes "http" ∷ []) (leaf (codes "81") []) config_file)
    ≡ none
set-lost_example =
    set-lost (codes "port") (codes "http") [] (leaf (codes "81") []) (leaf (codes "80") [])
      config_file refl refl port_found refl

abbrev double_style : Style
double_style = record {
  double_quoted = true;
  single_quoted = false;
  literal = false;
  folded = false;
}

quoted_end : scalar_end (codes "k: \"a\" # b") 3 double_style ≡ some 6
unfolding scalar_end
quoted_end = refl

-- The world counts what was read and stored.
abbrev places : Places ℕ
places = record {
  set = λ key value w. (none, w + 1);
  read = λ w. (ok old_file, w + 1);
  rewrite = λ before values. ok new_file;
  http_url = λ t. false;
}

abbrev plain_setting : Text → Editable
plain_setting key = record { key = key; choices = []; boolean = false; url = false }

abbrev settings : List (Text × Editable)
settings =
    (codes "mode", plain_setting (codes "auth.mode"))
    ∷ (codes "port", plain_setting (codes "port"))
    ∷ []

abbrev origins : List (Text × Origin)
origins = (codes "mode", from_file) ∷ []

abbrev change_of : Text → Text → Change
change_of flag value = record { flag = flag; value = value }

abbrev two_changes : List Change
two_changes = change_of (codes "mode") (codes "b") ∷ change_of (codes "port") (codes "81") ∷ []

refused_one :
    any (is_refused_change places settings origins) (change_of (codes "x") [] ∷ two_changes) ≡ true
unfolding check get
refused_one = refl

update-refused_example :
    (e : Error) × (update_settings places settings origins
        (change_of (codes "x") [] ∷ two_changes)
        0
      ≡ (err e, 0))
update-refused_example =
    update-refused places settings origins (change_of (codes "x") [] ∷ two_changes) 0 refused_one

parted :
    part_changes places settings origins two_changes
    ≡ ok ((codes "auth.mode", words (codes "b")) ∷ [], change_of (codes "port") (codes "81") ∷ [])
unfolding part_changes check get assign typed
parted = refl
