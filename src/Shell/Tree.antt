-- ===== src/Shell/Tree.antt =====
-- The nodes that tree-sitter-bash gives to TinyCTX/modules/shell/validate.py, the walk over them
-- and the check of their types. Parsing itself is not under the repository's control: the model
-- starts from the tree.
pub mod Inside
use tiny_ctx.Base.{
  String, ℕ, Bool, true, false, not, ◌&&◌, List, [], ◌∷◌, ◌++◌, Option, none, some, ◌==◌, string_eq,
  if◌then◌else◌,
}
use tiny_ctx.Base.Dict.{Dict, lookup}

mutual
  -- The node's id, its type, the field of its parent that it fills (or ""), whether it is named,
  -- its text, and its children.
  pub data Node : Type 0 where
    node : ℕ → String → String → Bool → String → Nodes → Node

  pub data Nodes : Type 0 where
    nil : Nodes
    cons : Node → Nodes → Nodes

unfoldable pub to_list : Nodes → List Node
to_list nil = []
to_list (cons n ns) = n ∷ to_list ns

abbrev pub id : Node → ℕ
id (node i t f m x cs) = i

abbrev pub type : Node → String
type (node i t f m x cs) = t

abbrev pub field : Node → String
field (node i t f m x cs) = f

abbrev pub is_named : Node → Bool
is_named (node i t f m x cs) = m

abbrev pub text : Node → String
text (node i t f m x cs) = x

abbrev pub children : Node → List Node
unfolding to_list
children (node i t f m x cs) = to_list cs

-- `_walk`: a node before what is below it
unfoldable mutual
  pub walk : Node → List Node
  walk (node i t f m x cs) = node i t f m x cs ∷ walk_all cs

  pub walk_all : Nodes → List Node
  walk_all nil = []
  walk_all (cons n ns) = walk n ++ walk_all ns

abbrev pub Constructs : Type 0
Constructs = Dict String String

-- `policy.constructs.get(key) == "allow"`
unfoldable pub is_allowed : Constructs → String → Bool
is_allowed constructs key = elim (lookup key constructs) [ none ↦ false | some v ↦ v == "allow" ]

-- What one node is denied for; the bare `&` goes by the key "background".
unfoldable pub denied_node : Constructs → Node → Option String
denied_node constructs n =
    if is_named n
    then if is_allowed constructs (type n) then none else some (type n)
    else if type n == "&" && not (is_allowed constructs "background")
    then some "background"
    else none

-- The loop of `_first_denied_construct`.
unfoldable pub first_denied : Constructs → List Node → Option String
first_denied constructs [] = none
first_denied constructs (n ∷ ns) =
    let rest = first_denied constructs ns in
    elim (denied_node constructs n) [ none ↦ rest | some key ↦ some key ]

unfoldable pub first_denied_construct : Constructs → Node → Option String
first_denied_construct constructs root = first_denied constructs (walk root)
