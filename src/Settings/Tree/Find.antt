-- ===== src/Settings/Tree/Find.antt =====
-- What is found in a content that was changed.
use docsearch.Settings.Tree.{
  Nodes, Node, find_value, put_in, key_node, update_value, cons, append_pair, nil, value_of,
}
use docsearch.Prelude.{
  ◌≡◌, refl, Bool, true, false, Option, none, some, arith, if◌then◌else◌, is_some, Text, text_eq,
  text_eq_iff, Option-cases, sym, inl, inr, Bool-cases, text_eq_refl,
}

-- Keys and values come in pairs.
abbrev pub paired : Nodes → Bool
paired nil = true
paired (cons k nil) = false
paired (cons k (cons v rest)) = paired rest

abbrev pub or_new : (Node → Node) → Node → Option Node → Node
or_new f new none = new
or_new f new (some n) = f n

abbrev pub map_option : (Node → Node) → Option Node → Option Node
map_option f none = none
map_option f (some n) = some (f n)

find_value-append_pair :
    (q k : Text) (v : Node) (c : Nodes)
    → paired c ≡ true
    → find_value q (append_pair c (key_node k) v)
      ≡ (if is_some (find_value q c) then find_value q c else if text_eq k q then some v else none)
unfolding find_value key_node
find_value-append_pair q k v nil h = ground arith
find_value-append_pair q k v (cons a nil) h = cc h
find_value-append_pair q k v (cons a (cons b rest)) h =
    ground (arith, find_value-append_pair q k v rest h)

find_value-update_value :
    (q k : Text) (f : Node → Node) (c : Nodes)
    → find_value q (update_value f k c)
      ≡ (if text_eq k q then map_option f (find_value q c) else find_value q c)
unfolding find_value update_value
find_value-update_value q k f nil = ground arith
find_value-update_value q k f (cons a nil) = ground arith
find_value-update_value q k f (cons a (cons b rest)) = ground (
  arith,
  find_value-update_value q k f rest,
  text_eq_iff (value_of a) k,
  text_eq_iff (value_of a) q,
  text_eq_iff k q,
)

kept_or_none : (o : Option Node) → (if is_some o then o else none) ≡ o
kept_or_none none = refl
kept_or_none (some n) = refl

pub find_value-put_in :
    (q k : Text) (f : Node → Node) (new : Node) (c : Nodes)
    → paired c ≡ true
    → find_value q (put_in f new k c)
      ≡ (if text_eq k q then some (or_new f new (find_value k c)) else find_value q c)
unfolding put_in
find_value-put_in q k f new c h = elim (Option-cases (find_value k c)) [
  | inl absent ↦ rw absent (rw (find_value-append_pair q k new c h) (by_absent absent))
  | inr (old, there) ↦ rw there (rw (find_value-update_value q k f c) (by_there old there))
]
  where
    by_absent :
        find_value k c ≡ none
        → (if is_some (find_value q c)
            then find_value q c
            else if text_eq k q
            then some new
            else none)
          ≡ (if text_eq k q then some new else find_value q c)
    by_absent absent = elim (Bool-cases (text_eq k q)) [
      | inl same ↦ rw (sym ((text_eq_iff k q).0 same)) (rw (absent, text_eq_refl k) refl)
      | inr other ↦ rw other (kept_or_none (find_value q c))
    ]

    by_there :
        (old : Node)
        → find_value k c ≡ some old
        → (if text_eq k q then map_option f (find_value q c) else find_value q c)
          ≡ (if text_eq k q then some (f old) else find_value q c)
    by_there old there = elim (Bool-cases (text_eq k q)) [
      | inl same ↦ rw (sym ((text_eq_iff k q).0 same)) (rw (there, text_eq_refl k) refl)
      | inr other ↦ rw other refl
    ]
