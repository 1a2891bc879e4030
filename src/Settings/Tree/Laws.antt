-- ===== src/Settings/Tree/Laws.antt =====
-- What `lookup` finds after `set` and `remove`.
use docsearch.Settings.Tree.Find.{paired, or_new, find_value-put_in}
use docsearch.Settings.Tree.{
  Nodes, Node, find_value, put_in, is_mapping, with_comment, kind_of, content_of, set, comment_of,
  with_content, lookup, node, new_mapping,
}
use docsearch.Prelude.{
  ◌≡◌, refl, Bool, true, false, ◌&&◌, ◌||◌, Option, none, some, List, [], ◌∷◌, arith, is_some,
  is_empty, Text, ◌>>=◌, sym, &&-eq-true, ap, ◌∙◌, text_eq_refl,
}

abbrev opens_under : (Node → Bool) → Option Node → Bool
opens_under rest none = true
opens_under rest (some v) = rest v

-- Each node on the way to a key is a mapping whose keys and values come in pairs, or is not there.
abbrev pub opens : List Text → Node → Bool
opens [] n = true
opens (k ∷ path) n =
    let rest = opens path in
    is_mapping (kind_of n)
    && (paired (content_of n)
        && opens_under (λ v. is_empty path || rest v) (find_value k (content_of n)))

abbrev pub commented : Node → Option Node → Node
commented value none = value
commented value (some old) = with_comment value (comment_of old)

kind_of-with_content : (n : Node) (c : Nodes) → kind_of (with_content n c) ≡ kind_of n
kind_of-with_content (node k tag v comment content) c = refl

content_of-with_content : (n : Node) (c : Nodes) → content_of (with_content n c) ≡ c
content_of-with_content (node k tag v comment content) c = refl

is_some-none : {A : Type 0} (o : Option A) → is_some o ≡ false → o ≡ none
is_some-none none h = refl
is_some-none (some a) h = cc h

lookup-one_with_content :
    (k : Text) (n : Node) (c : Nodes)
    → is_mapping (kind_of n) ≡ true
    → lookup (k ∷ []) (with_content n c) ≡ find_value k c
unfolding lookup
lookup-one_with_content k (node kind tag v comment content) c h = rw h refl

lookup-one :
    (k : Text) (n : Node)
    → is_mapping (kind_of n) ≡ true
    → lookup (k ∷ []) n ≡ find_value k (content_of n)
unfolding lookup
lookup-one k n h = rw h refl

commented-or_new :
    (value : Node) (o : Option Node)
    → some (or_new (λ (old : Node). with_comment value (comment_of old)) value o)
      ≡ some (commented value o)
commented-or_new value none = refl
commented-or_new value (some old) = refl

opens-mapping :
    (k : Text) (path : List Text) (n : Node)
    → opens (k ∷ path) n ≡ true
    → (is_mapping (kind_of n) ≡ true)
      × (paired (content_of n) ≡ true)
      × (opens_under (λ v. is_empty path || opens path v) (find_value k (content_of n)) ≡ true)
opens-mapping k path n h = (
  (&&-eq-true _ _ h).0,
  (&&-eq-true _ _ (&&-eq-true _ _ h).1).0,
  (&&-eq-true _ _ (&&-eq-true _ _ h).1).1,
)

lookup-set_one :
    (k : Text) (value n : Node)
    → opens (k ∷ []) n ≡ true
    → lookup (k ∷ []) (set (k ∷ []) value n) ≡ some (commented value (lookup (k ∷ []) n))
unfolding set
lookup-set_one k value n h =
    let open_here = opens-mapping k [] n h in
    rw
      (lookup-one_with_content k n
        (put_in (λ (old : Node). with_comment value (comment_of old)) value k (content_of n))
        open_here.0)
      (rw
        (find_value-put_in k k (λ (old : Node). with_comment value (comment_of old)) value
          (content_of n) open_here.1)
        (rw (text_eq_refl k)
          (rw (lookup-one k n open_here.0) (commented-or_new value (find_value k (content_of n))))))

lookup-with_content :
    (k l : Text) (path : List Text) (n : Node) (c : Nodes)
    → is_mapping (kind_of n) ≡ true
    → lookup (k ∷ l ∷ path) (with_content n c) ≡ (find_value k c >>= lookup (l ∷ path))
unfolding lookup
lookup-with_content k l path (node kind tag v comment content) c h = ground (arith, h)

opens-new_mapping : (path : List Text) → opens path new_mapping ≡ true
unfolding find_value
opens-new_mapping [] = refl
opens-new_mapping (k ∷ path) = refl

lookup-new_mapping : (k : Text) (path : List Text) → lookup (k ∷ path) new_mapping ≡ none
unfolding lookup find_value
lookup-new_mapping k [] = refl
lookup-new_mapping k (l ∷ path) = refl

lookup-step :
    (k l : Text) (path : List Text) (n : Node)
    → is_mapping (kind_of n) ≡ true
    → lookup (k ∷ l ∷ path) n ≡ (find_value k (content_of n) >>= lookup (l ∷ path))
unfolding lookup
lookup-step k l path n h = ground (arith, h)

set-step :
    (k l : Text) (path : List Text) (value n : Node)
    → set (k ∷ l ∷ path) value n
      ≡ with_content n
          (put_in (set (l ∷ path) value) (set (l ∷ path) value new_mapping) k (content_of n))
unfolding set
set-step k l path value n = refl

-- A value that is set at a dotted key is the one found there, with the line comment of the value
-- that it replaces, where each node on the way is a mapping whose keys and values come in pairs, or
-- is not there.
pub lookup-set :
    (k : Text) (path : List Text) (value n : Node)
    → opens (k ∷ path) n ≡ true
    → lookup (k ∷ path) (set (k ∷ path) value n) ≡ some (commented value (lookup (k ∷ path) n))
lookup-set k [] value n h = lookup-set_one k value n h
lookup-set k (l ∷ path) value n h =
    let open_here = opens-mapping k (l ∷ path) n h in
    rw (set-step k l path value n) (
      rw
        (lookup-with_content k l path n
          (put_in (set (l ∷ path) value) (set (l ∷ path) value new_mapping) k (content_of n))
          open_here.0)
        (rw
          (find_value-put_in k k (set (l ∷ path) value) (set (l ∷ path) value new_mapping)
            (content_of n) open_here.1)
          (rw (text_eq_refl k) (
            rw (lookup-step k l path n open_here.0)
              (under (find_value k (content_of n)) open_here.2 (λ m. lookup-set l path value m))))))
  where
    under :
        (o : Option Node)
        → opens_under (λ v. is_empty (l ∷ path) || opens (l ∷ path) v) o ≡ true
        → ((m : Node)
            → opens (l ∷ path) m ≡ true
            → lookup (l ∷ path) (set (l ∷ path) value m)
              ≡ some (commented value (lookup (l ∷ path) m)))
        → lookup (l ∷ path) (or_new (set (l ∷ path) value) (set (l ∷ path) value new_mapping) o)
          ≡ some (commented value (o >>= lookup (l ∷ path)))
    under none e ih =
        ih new_mapping (opens-new_mapping (l ∷ path))
        ∙ ap (λ o. some (commented value o)) (lookup-new_mapping l path)
    under (some old) e ih = ih old e

kind_of-set : (path : List Text) (value n : Node) → kind_of (set path value n) ≡ kind_of n
unfolding set
kind_of-set [] value n = refl
kind_of-set (k ∷ []) value n = kind_of-with_content n _
kind_of-set (k ∷ l ∷ path) value n = kind_of-with_content n _

lookup-plain :
    (k : Text) (path : List Text) (n : Node)
    → is_mapping (kind_of n) ≡ false
    → lookup (k ∷ path) n ≡ none
unfolding lookup
lookup-plain k [] n h = rw h refl
lookup-plain k (l ∷ path) n h = rw h refl

lookup-set_plain :
    (k : Text) (path : List Text) (value n : Node)
    → is_mapping (kind_of n) ≡ false
    → lookup (k ∷ path) (set (k ∷ path) value n) ≡ none
lookup-set_plain k path value n h =
    lookup-plain k path (set (k ∷ path) value n) (rw (kind_of-set (k ∷ path) value n) h)

-- Where a mapping, whose keys and values come in pairs, holds a node that is no mapping at a key, a
-- value that is set under that key is not found there afterwards.
pub set-lost :
    (k l : Text) (path : List Text) (value parent n : Node)
    → is_mapping (kind_of n) ≡ true
    → paired (content_of n) ≡ true
    → lookup (k ∷ []) n ≡ some parent
    → is_mapping (kind_of parent) ≡ false
    → lookup (k ∷ l ∷ path) (set (k ∷ l ∷ path) value n) ≡ none
set-lost k l path value parent n whole pairs there plain =
    let found : find_value k (content_of n) ≡ some parent = sym (lookup-one k n whole) ∙ there in
    rw (set-step k l path value n) (
      rw
        (lookup-with_content k l path n
          (put_in (set (l ∷ path) value) (set (l ∷ path) value new_mapping) k (content_of n)) whole)
        (rw
          (find_value-put_in k k (set (l ∷ path) value) (set (l ∷ path) value new_mapping)
            (content_of n) pairs)
          (rw (text_eq_refl k, found) (lookup-set_plain l path value parent plain))))
