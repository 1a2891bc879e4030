-- ===== src/Settings/Tree.antt =====
-- The nodes of a YAML document: `lookup`, `set` and `remove` at a dotted key.
pub mod Find
pub mod Laws
use docsearch.Prelude.{
  Bool, true, false, Option, none, some, List, [], ◌∷◌, arith, ◌>>=◌, if◌then◌else◌, is_some, Text,
  codes, text_eq,
}

pub data NodeKind : Type 0 where
  sequence mapping scalar alias : NodeKind

mutual
  -- A node's kind, tag, value, line comment and content; a mapping's content has a key and a value
  -- in turn.
  pub data Node : Type 0 where
    node : NodeKind → Text → Text → Text → Nodes → Node

  pub data Nodes : Type 0 where
    nil : Nodes
    cons : Node → Nodes → Nodes

abbrev pub kind_of : Node → NodeKind
kind_of (node k tag v c content) = k

abbrev pub value_of : Node → Text
value_of (node k tag v c content) = v

abbrev pub comment_of : Node → Text
comment_of (node k tag v c content) = c

abbrev pub content_of : Node → Nodes
content_of (node k tag v c content) = content

abbrev pub is_mapping : NodeKind → Bool
is_mapping mapping = true
is_mapping sequence = false
is_mapping scalar = false
is_mapping alias = false

-- The node behind the first key with a value, of the pairs in a content.
unfoldable pub find_value : Text → Nodes → Option Node
unfolding text_eq
find_value key nil = none
find_value key (cons k nil) = none
find_value key (cons k (cons v rest)) =
    if text_eq (value_of k) key then some v else find_value key rest

unfoldable pub lookup : List Text → Node → Option Node
unfolding find_value
lookup [] n = none
lookup (k ∷ []) n = if is_mapping (kind_of n) then find_value k (content_of n) else none
lookup (k ∷ l ∷ path) n =
    if is_mapping (kind_of n) then find_value k (content_of n) >>= lookup (l ∷ path) else none

-- Changes the node behind the first such key, and leaves a content with no such key as it is.
unfoldable pub update_value : (Node → Node) → Text → Nodes → Nodes
unfolding text_eq
update_value f key nil = nil
update_value f key (cons k nil) = cons k nil
update_value f key (cons k (cons v rest)) =
    if text_eq (value_of k) key
    then cons k (cons (f v) rest)
    else cons k (cons v (update_value f key rest))

abbrev pub append_pair : Nodes → Node → Node → Nodes
append_pair nil k v = cons k (cons v nil)
append_pair (cons n ns) k v = cons n (append_pair ns k v)

abbrev pub with_content : Node → Nodes → Node
with_content (node k tag v c content) new = node k tag v c new

abbrev pub with_comment : Node → Text → Node
with_comment (node k tag v c content) comment = node k tag v comment content

abbrev str_tag : Text
str_tag = codes "!!str"

unfoldable pub key_node : Text → Node
key_node key = node scalar str_tag key [] nil

abbrev pub new_mapping : Node
new_mapping = node mapping [] [] [] nil

-- A content with `f` done to the node behind a key, or with the key and `new` at its end.
unfoldable pub put_in : (Node → Node) → Node → Text → Nodes → Nodes
unfolding find_value update_value key_node
put_in f new key content =
    if is_some (find_value key content)
    then update_value f key content
    else append_pair content (key_node key) new

unfoldable pub set : List Text → Node → Node → Node
unfolding put_in
set [] value n = n
set (k ∷ []) value n =
    with_content n (put_in (λ old. with_comment value (comment_of old)) value k (content_of n))
set (k ∷ l ∷ path) value n =
    with_content n
      (put_in (set (l ∷ path) value) (set (l ∷ path) value new_mapping) k (content_of n))

unfoldable pub without : Text → Nodes → Nodes
unfolding text_eq
without key nil = nil
without key (cons k nil) = cons k nil
without key (cons k (cons v rest)) =
    if text_eq (value_of k) key then rest else cons k (cons v (without key rest))

unfoldable pub remove : List Text → Node → Node
unfolding update_value without
remove [] n = n
remove (k ∷ []) n = with_content n (without k (content_of n))
remove (k ∷ l ∷ path) n = with_content n (update_value (remove (l ∷ path)) k (content_of n))
