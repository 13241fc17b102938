-- ===== src/Expr/Ast.antt =====
-- wq_workflow/core/ast/ast_node.py: the syntax tree. A value of the model is the tree that the
-- Python object stands for, so `clone` is the identity: it copies what an in-place change of the
-- copy would reach. The type of Python's floats is a parameter `F`.
use worldquant_workflow_v2_r.Common.{
  ℕ, zero, suc, ◌≡◌, Bool, true, false, Option, none, some, List, [], ◌∷◌, ◌++◌, Text, text_eq,
  arith, if◌then◌else◌, codes,
}

-- The strings that the field `type` takes.
pub data NodeType : Type 0 where
  program assignment operator field variable number string unary binary comparison : NodeType

abbrev pub type_text : NodeType → Text
type_text program = codes "program"
type_text assignment = codes "assignment"
type_text operator = codes "operator"
type_text field = codes "field"
type_text variable = codes "variable"
type_text number = codes "number"
type_text string = codes "string"
type_text unary = codes "unary"
type_text binary = codes "binary"
type_text comparison = codes "comparison"

-- The field `value`: None, an int, a float or a string.
pub data Value (F : Type 0) : Type 0 where
  absent : Value F
  int : ℕ → Value F
  float : F → Value F
  str : Text → Value F

-- The field `metadata`, with the keys that the program writes.
pub record Metadata : Type 0 where
  pub arity : Option (ℕ × ℕ)
  pub replaced_from : Option Text

abbrev pub no_metadata : Metadata
no_metadata = record { arity = none; replaced_from = none }

-- A list of children, and a dictionary of parameters in insertion order, whose values are literals
-- or trees.
mutual
  pub data Node (F : Type 0) : Type 0 where
    node : NodeType → Text → Text → Nodes F → Params F → Metadata → Value F → Node F

  pub data Nodes (F : Type 0) : Type 0 where
    nil : Nodes F
    cons : Node F → Nodes F → Nodes F

  pub data Params (F : Type 0) : Type 0 where
    empty : Params F
    literal : Text → Value F → Params F → Params F
    tree : Text → Node F → Params F → Params F

module _ {F : Type 0} where
  abbrev pub type_of : Node F → NodeType
  type_of (node t n o cs ps m v) = t

  abbrev pub name_of : Node F → Text
  name_of (node t n o cs ps m v) = n

  abbrev pub operator_of : Node F → Text
  operator_of (node t n o cs ps m v) = o

  abbrev pub children_of : Node F → Nodes F
  children_of (node t n o cs ps m v) = cs

  abbrev pub params_of : Node F → Params F
  params_of (node t n o cs ps m v) = ps

  abbrev pub value_of : Node F → Value F
  value_of (node t n o cs ps m v) = v

  abbrev pub set_children : Node F → Nodes F → Node F
  set_children (node t n o _ ps m v) cs = node t n o cs ps m v

  abbrev pub set_params : Node F → Params F → Node F
  set_params (node t n o cs _ m v) ps = node t n o cs ps m v

  abbrev pub set_value : Node F → Value F → Node F
  set_value (node t n o cs ps m _) v = node t n o cs ps m v

  -- A node with the dataclass's defaults but for its type, name and children.
  abbrev pub operator_node : Text → Nodes F → Params F → Node F
  operator_node name cs ps = node operator name [] cs ps no_metadata absent

  -- `len(node.children)`
  abbrev pub count : Nodes F → ℕ
  count nil = 0
  count (cons c cs) = suc (count cs)

  -- `len(node.parameters)`
  abbrev pub count_params : Params F → ℕ
  count_params empty = 0
  count_params (literal k v ps) = suc (count_params ps)
  count_params (tree k n ps) = suc (count_params ps)

  -- `children[i]`
  abbrev pub child? : Nodes F → ℕ → Option (Node F)
  child? nil i = none
  child? (cons c cs) zero = some c
  child? (cons c cs) (suc i) = child? cs i

  -- `children.append(n)`
  abbrev pub append : Nodes F → Node F → Nodes F
  append nil n = cons n nil
  append (cons c cs) n = cons c (append cs n)

  -- `k in parameters`
  unfoldable pub has_param : Text → Params F → Bool
  has_param k empty = false
  has_param k (literal j v ps) = let later = has_param k ps in if text_eq j k then true else later
  has_param k (tree j n ps) = let later = has_param k ps in if text_eq j k then true else later

  -- `parameters[k] = v` for a literal `v`: a key that is there keeps its place.
  unfoldable pub put_literal : Text → Value F → Params F → Params F
  put_literal k v empty = literal k v empty
  put_literal k v (literal j w ps) =
      let later = put_literal k v ps in if text_eq j k then literal j v ps else literal j w later
  put_literal k v (tree j n ps) =
      let later = put_literal k v ps in if text_eq j k then literal j v ps else tree j n later

  -- `parameters[k] = n` for a tree `n`
  unfoldable pub put_tree : Text → Node F → Params F → Params F
  put_tree k n empty = tree k n empty
  put_tree k n (literal j w ps) =
      let later = put_tree k n ps in if text_eq j k then tree j n ps else literal j w later
  put_tree k n (tree j m ps) =
      let later = put_tree k n ps in if text_eq j k then tree j n ps else tree j m later

  -- `parameters.get("window")`, when it is an int
  unfoldable pub int_param : Text → Params F → Option ℕ
  int_param k empty = none
  int_param k (literal j (int i) ps) =
      let later = int_param k ps in if text_eq j k then some i else later
  int_param k (literal j w ps) = let later = int_param k ps in if text_eq j k then none else later
  int_param k (tree j m ps) = let later = int_param k ps in if text_eq j k then none else later

-- `walk`: the node, then what its children walk, in order. Parameters are not entered.
unfoldable mutual
  pub walk : {F : Type 0} → Node F → List (Node F)
  walk (node t n o cs ps m v) = node t n o cs ps m v ∷ walk_all cs

  pub walk_all : {F : Type 0} → Nodes F → List (Node F)
  walk_all nil = []
  walk_all (cons c cs) = walk c ++ walk_all cs

abbrev pub same_type : NodeType → NodeType → Bool
same_type program program = true
same_type assignment assignment = true
same_type operator operator = true
same_type field field = true
same_type variable variable = true
same_type number number = true
same_type string string = true
same_type unary unary = true
same_type binary binary = true
same_type comparison comparison = true
same_type _ _ = false

pub same_type→eq : (a b : NodeType) → same_type a b ≡ true → a ≡ b
same_type→eq a b h = ground arith
