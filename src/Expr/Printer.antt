-- ===== src/Expr/Printer.antt =====
-- wq_workflow/core/ast/ast_serializer.py: a tree printed as the text of an expression.
use worldquant_workflow_v2_r.Expr.Ast.{
  program, assignment, operator, field, variable, number, string, unary, binary, comparison, Value,
  absent, int, float, str, Node, Nodes, node, nil, cons, Params, empty, literal, tree,
}
use worldquant_workflow_v2_r.Expr.Parser.{window_operators}
use worldquant_workflow_v2_r.Common.{
  ℕ, Text, suc, ◌∷◌, List, codes, ◌++◌, Bool, ◌/◌, [], if◌then◌else◌, ◌==◌, text_eq, ◌+◌, ◌&&◌, ◌%◌,
  mem_text, ltb, leb, reverse, zero, true, ◌||◌, false, none, some,
}
use worldquant_workflow_v2_r.Expr.Floats.{Floats}

-- `str(n)` for a natural number: its decimal digits in front of `acc`.
unfoldable pub digits : ℕ → ℕ → Text → Text
digits zero n acc = acc
digits (suc f) n acc =
    let more = digits f (n / 10) ((b'0' + n % 10) ∷ acc) in
    if ltb n 10 then (b'0' + n) ∷ acc else more

-- A number has at most one digit more than its value says, so the fuel is enough.
unfoldable pub decimal : ℕ → Text
unfolding digits
decimal n = digits (suc n) n []

-- `value.replace("\\", "\\\\").replace('"', '\\"')`
unfoldable pub escape : Text → Text
escape [] = []
escape (c ∷ s) =
    let rest = escape s in
    if c == b'\\' then b'\\' ∷ b'\\' ∷ rest else if c == b'"' then b'\\' ∷ b'"' ∷ rest else c ∷ rest

-- `_quote`
unfoldable pub quote : Text → Text
unfolding escape
quote s = b'"' ∷ (escape s ++ b'"' ∷ [])

abbrev pub is_white : ℕ → Bool
is_white c = (leb 9 c && leb c 13) || (leb 28 c && leb c 32)

-- `s.strip()`
unfoldable pub strip_left : Text → Text
strip_left [] = []
strip_left (c ∷ s) = elim (is_white c) [ true ↦ strip_left s | false ↦ c ∷ s ]

unfoldable pub strip : Text → Text
unfolding strip_left
strip s = reverse (strip_left (reverse (strip_left s)))

-- `sep.join(parts)`
unfoldable pub join : Text → List Text → Text
join sep [] = []
join sep (s ∷ []) = s
join sep (s ∷ t ∷ ts) = s ++ (sep ++ join sep (t ∷ ts))

-- The text of a binary node or a comparison.
abbrev pub infix_text : Text → Text → Text → Text
infix_text left op right = strip (left ++ (b' ' ∷ (op ++ (b' ' ∷ right))))

module _ (fl : Floats) where
  open fl use {Float, whole_part, repr}

  -- `_format_number`; of what is no number it is `str(value)`.
  unfoldable pub format_number : Value Float → Text
  unfolding decimal
  format_number absent = codes "None"
  format_number (int n) = decimal n
  format_number (float x) = elim (whole_part x) [ none ↦ repr x | some n ↦ decimal n ]
  format_number (str s) = s

  -- `_format_value` on a literal
  unfoldable pub format_value : Value Float → Text
  unfolding format_number quote
  format_value (str s) = quote s
  format_value v = format_number v

  abbrev is_window : Text → Text → Bool
  is_window name key = text_eq key (codes "window") && mem_text name window_operators

  -- `str(ast.value)` in the branch for strings
  abbrev plain_text : Value Float → Text
  plain_text (str s) = s
  plain_text absent = codes "None"
  plain_text (int n) = decimal n
  plain_text (float x) = repr x

  -- `serialize_ast`
  unfoldable mutual
    unfolding format_value

    pub serialize : Node Float → Text
    serialize (node program name op cs ps m v) = join (10 ∷ []) (serialize_all cs)
    serialize (node assignment name op nil ps m v) = name ++ codes " ="
    serialize (node assignment name op (cons c cs) ps m v) = name ++ (codes " = " ++ serialize c)
    serialize (node operator name op cs ps m v) =
        name
        ++ (b'(' ∷ (join (codes ", ") (serialize_all cs ++ serialize_params name ps) ++ b')' ∷ []))
    serialize (node field name op cs ps m v) = name
    serialize (node variable name op cs ps m v) = name
    serialize (node number name op cs ps m v) = format_number v
    serialize (node string name op cs ps m v) = quote (plain_text v)
    serialize (node unary name op nil ps m v) = op
    serialize (node unary name op (cons c cs) ps m v) = op ++ serialize c
    serialize (node binary name op cs ps m v) =
        infix_text (serialize_first cs) op (serialize_second cs)
    serialize (node comparison name op cs ps m v) =
        infix_text (serialize_first cs) op (serialize_second cs)

    -- The text of each child.
    pub serialize_all : Nodes Float → List Text
    serialize_all nil = []
    serialize_all (cons c cs) = serialize c ∷ serialize_all cs

    -- `serialize_ast(children[0]) if children else ""`
    pub serialize_first : Nodes Float → Text
    serialize_first nil = []
    serialize_first (cons c cs) = serialize c

    pub serialize_second : Nodes Float → Text
    serialize_second nil = []
    serialize_second (cons c cs) = serialize_first cs

    -- The keyword arguments: `_format_value` for a window, `_format_parameter` for the others.
    pub serialize_params : Text → Params Float → List Text
    serialize_params name empty = []
    serialize_params name (literal k v ps) =
        (if is_window name k then format_value v else k ++ (b'=' ∷ format_value v))
        ∷ serialize_params name ps
    serialize_params name (tree k n ps) =
        (if is_window name k then serialize n else k ++ (b'=' ∷ serialize n))
        ∷ serialize_params name ps
