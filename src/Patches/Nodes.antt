-- ===== src/Patches/Nodes.antt =====
-- The YAML nodes that domains/gitops/source_patch.py looks its targets up in: `node_value_at` and
-- `mapping_value`.
use Prim.Native.Nat.{ℕ}
use Prim.Native.Char.{Char}
use k8s_clue.Prelude.{String, Bool, false, Option, none, some, List, [], ◌∷◌, str_eq, if◌then◌else◌}
use k8s_clue.Patches.{Outcome, returned, ◌then◌, FieldPathSegment}
use k8s_clue.Patches.Objects.{missing, not_unique}

-- The style of a scalar is the character that opens it; a plain scalar has none.
pub record ScalarNode : Type 0 where
  pub value : String
  pub style : Option Char
  pub start : ℕ
  pub end : ℕ

mutual
  pub data Pairs : Type 0 where
    no_pairs : Pairs
    pair : Node → Node → Pairs → Pairs

  pub data Nodes : Type 0 where
    no_nodes : Nodes
    node : Node → Nodes → Nodes

  pub data Node : Type 0 where
    scalar : ScalarNode → Node
    mapping : Pairs → Node
    sequence : Nodes → Node

abbrev is_key : String → Node → Bool
is_key key (scalar found) = str_eq found.value key
is_key key _ = false

unfoldable pub mapping_value : Pairs → String → Option Node
mapping_value no_pairs key = none
mapping_value (pair k v rest) key = if is_key key k then some v else mapping_value rest key

abbrev is_scalar_of : String → Option Node → Bool
is_scalar_of name (some (scalar found)) = str_eq found.value name
is_scalar_of name _ = false

abbrev is_named_node : String → Node → Bool
is_named_node name (mapping pairs) = is_scalar_of name (mapping_value pairs "name")
is_named_node name _ = false

abbrev keep_named : String → Nodes → List Node
keep_named name no_nodes = []
keep_named name (node n rest) =
    let others = keep_named name rest in if is_named_node name n then n ∷ others else others

abbrev only_node : List Node → Outcome Node
only_node (found ∷ []) = returned found
only_node _ = not_unique

abbrev select_node : Option String → Node → Outcome Node
select_node none child = returned child
select_node (some name) (sequence nodes) = only_node (keep_named name nodes)
select_node (some name) _ = missing

abbrev node_step : Node → FieldPathSegment → Outcome Node
node_step (mapping pairs) segment = elim (mapping_value pairs segment.key) [
  | none ↦ missing
  | some child ↦ select_node segment.selected_name child
]
node_step _ segment = missing

unfoldable pub node_value_at : Node → List FieldPathSegment → Outcome Node
node_value_at root [] = returned root
node_value_at root (segment ∷ segments) =
    node_step root segment then λ child. node_value_at child segments
