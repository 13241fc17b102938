-- ===== src/Examples/Expressions.antt =====
-- The expression engine of wq_workflow/core on small expressions.
use worldquant_workflow_v2_r.Expr.Floats.{Floats}
use worldquant_workflow_v2_r.Expr.Ast.{
  Node, node, field, operator, nil, cons, empty, literal, no_metadata, int, absent, walk, has_param,
  put_literal, Metadata, Nodes, set_children, int_param, binary, number, float,
}
use worldquant_workflow_v2_r.Common.{
  Text, All, ℕ, codes, ◌∷◌, ◌≤◌, none, [], mem_text, ◌≢◌, ◌≡◌, ◌%◌, is_alnum, text_eq, some, true,
  ◌==◌, ◌↔◌, ◌/◌, refl, find_text, lower_char, List, ◌+◌, starts_with, contains, if◌then◌else◌, ◌⊎◌,
  false, any,
}
use worldquant_workflow_v2_r.Expr.Parser.{
  parse, statements, statement, expression, call_node, name_node, number_value, put_param,
}
use worldquant_workflow_v2_r.Expr.Printer.{serialize, join, decimal, strip}
use worldquant_workflow_v2_r.Expr.Result.{Within, out_of_fuel, ok}
use worldquant_workflow_v2_r.Expr.Paths.{update_path, get_path, paths, paths_from, replace_path}
use worldquant_workflow_v2_r.Expr.Constraints.{
  validate, default_constraints, is_operator, ast_depth, operator_count, neutralization_layers,
  first_illegal_nesting, first_illegal,
}
use worldquant_workflow_v2_r.Expr.Lexer.{tokenize, lex}
use worldquant_workflow_v2_r.Expr.Lexer.Shape.{Tokens, tokenize-Within}
use worldquant_workflow_v2_r.Expr.Mutator.{
  nearby_windows, strategy_mutations, collect, operator_paths, arity_compatible, signal_paths,
  wrapper_node,
}
use worldquant_workflow_v2_r.Expr.Parser.Total.{parse-ne-out_of_fuel}
use worldquant_workflow_v2_r.Expr.Paths.Sound.{update_path-get_path, paths_sound}
use worldquant_workflow_v2_r.Expr.Mutator.Windows.{nearby_windows_bounds}
use worldquant_workflow_v2_r.Expr.Constraints.Verdict.{IsWithin, NestsLegally, validate_iff}
use worldquant_workflow_v2_r.Expr.Mutator.Generate.{
  generate, Candidate, mutate, simplify_branches, remove_nodes, replace_operators, replace_windows,
  candidate, dedupe, dedupe_key,
}
use worldquant_workflow_v2_r.Expr.Mutator.Chosen.{DistinctKeys}
use worldquant_workflow_v2_r.Expr.Constraints.Counting.{total, update_path-total}
use worldquant_workflow_v2_r.Expr.Operators.{nesting_reason}
use worldquant_workflow_v2_r.Expr.Mutator.Rows.{HasNumbers}
use worldquant_workflow_v2_r.Expr.Mutator.Returned.{generate-Returns}
use worldquant_workflow_v2_r.Expr.Pipeline.{Generates, parse-Generates, is_infinite}

-- Floats as tenths, for the inputs below: no text is read as a float.
abbrev pub tenths : Floats
tenths = record {
  Float = ℕ;
  of_text = λ text. none;
  whole_part = λ x. if (x % 10) == 0 then some (x / 10) else none;
  truncate = λ x. some (x / 10);
  repr = λ x. [];
  is_zero = λ x. x == 0;
}

abbrev pub Tree : Type 0
Tree = Node ℕ

abbrev field_node : Text → Tree
field_node name = node field name [] nil empty no_metadata absent

-- ts_mean(close, 20)
abbrev smooth : Tree
smooth =
    node operator (codes "ts_mean") [] (cons (field_node (codes "close")) nil)
      (literal (codes "window") (int 20) empty)
      (record { arity = some (2, 2); replaced_from = none }) absent

-- rank(ts_mean(close, 20))
abbrev ranked : Tree
ranked =
    node operator (codes "rank") [] (cons smooth nil) empty
      (record { arity = some (1, 1); replaced_from = none }) absent

parse-ranked : parse tenths (codes "rank(ts_mean(close, 20))") ≡ ok ranked
unfolding parse tokenize lex is_alnum statements statement expression call_node name_node
    number_value put_param find_text mem_text has_param put_literal lower_char
parse-ranked = refl

serialize-ranked : serialize tenths ranked ≡ codes "rank(ts_mean(close, 20))"
unfolding serialize join mem_text text_eq decimal
serialize-ranked = refl

parse-ne-out_of_fuel_example : parse tenths (codes "rank(close") ≢ out_of_fuel
parse-ne-out_of_fuel_example = parse-ne-out_of_fuel tenths (codes "rank(close")

tokenize-Within_example : Within (Tokens 5 0) (tokenize (codes "a + 1"))
tokenize-Within_example = tokenize-Within (codes "a + 1")

paths_sound_example : All (λ row. get_path ranked row.0 ≡ some row.1) (paths ranked [])
paths_sound_example = paths_sound ranked

update_path-get_path_example :
    (tree : Tree) × (update_path ranked (0 ∷ 0 ∷ []) (λ _. field_node (codes "volume")) ≡ some tree)
    × (get_path tree (0 ∷ 0 ∷ []) ≡ some (field_node (codes "volume")))
update_path-get_path_example =
    update_path-get_path (0 ∷ 0 ∷ []) ranked (field_node (codes "close"))
      (λ _. field_node (codes "volume")) (unfold get_path in refl)

validate_iff_example :
    ((validate default_constraints ranked).passed ≡ true)
    ↔ (IsWithin default_constraints ranked × All NestsLegally (walk ranked))
validate_iff_example = validate_iff default_constraints ranked

nearby_windows_bounds_example : All (λ w. (2 ≤ w) × (w ≢ 7)) (nearby_windows 7)
nearby_windows_bounds_example = nearby_windows_bounds 7

-- rank(rank(close))
abbrev close_node : Tree
close_node = field_node (codes "close")

abbrev apply_to : Text → Metadata → Tree → Tree
apply_to name m n = node operator name [] (cons n nil) empty m absent

abbrev plain_rank : Metadata
plain_rank = record { arity = some (1, 1); replaced_from = none }

abbrev renamed_rank : Metadata
renamed_rank = record { arity = some (1, 1); replaced_from = some (codes "rank") }

abbrev ranked_twice : Tree
ranked_twice = apply_to (codes "rank") plain_rank (apply_to (codes "rank") plain_rank close_node)

-- What a simplification of it proposes.
abbrev simplified : List (Candidate ℕ)
simplified =
    record {
      ast = apply_to (codes "rank") plain_rank close_node;
      expression = codes "rank(close)";
      mutation = codes "simplify_branch";
      description = codes "collapse rank(rank())";
    }
    ∷ record {
      ast = apply_to (codes "scale") renamed_rank (apply_to (codes "rank") plain_rank close_node);
      expression = codes "scale(rank(close))";
      mutation = codes "replace_operator";
      description = codes "rank->scale";
    }
    ∷ record {
      ast = apply_to (codes "rank") plain_rank (apply_to (codes "scale") renamed_rank close_node);
      expression = codes "rank(scale(close))";
      mutation = codes "replace_operator";
      description = codes "rank->scale";
    }
    ∷ []

generate-simplified :
    generate tenths default_constraints (codes "simplification") ranked_twice ≡ some simplified
unfolding generate mutate simplify_branches remove_nodes replace_operators replace_windows candidate
    strategy_mutations contains collect dedupe dedupe_key operator_paths paths paths_from
    update_path replace_path serialize validate join mem_text find_text text_eq decimal
    arity_compatible lower_char starts_with int_param ast_depth operator_count walk
    neutralization_layers first_illegal_nesting first_illegal nesting_reason
generate-simplified = refl

ranked_twice-HasNumbers : HasNumbers tenths ranked_twice
unfolding walk
ranked_twice-HasNumbers = ((λ h. absurd (cc h)), ((λ h. absurd (cc h)), ((λ h. absurd (cc h)), tt)))

generate-Returns_example :
    (found : List (Candidate ℕ)) × (generate tenths default_constraints
        (codes "simplification")
        ranked_twice
      ≡ some found)
    × All (λ c. (validate default_constraints c.ast).passed ≡ true) found
    × DistinctKeys tenths [] found
generate-Returns_example =
    generate-Returns tenths default_constraints (codes "simplification") ranked_twice
      ranked_twice-HasNumbers

parse-Generates_example :
    Within
      (λ tree.
        Generates tenths default_constraints (codes "turnover") tree
        ⊎ (any (is_infinite tenths) (walk tree) ≡ true))
      (parse tenths (codes "rank(2 * a)"))
parse-Generates_example =
    parse-Generates tenths (codes "rank(2 * a)") default_constraints (codes "turnover")

is_operator-children : (n : Tree) (cs : Nodes ℕ) → is_operator (set_children n cs) ≡ is_operator n
is_operator-children (node t name op ds ps m v) cs = refl

update_path-total_example :
    total is_operator (apply_to (codes "rank") plain_rank close_node) + total is_operator smooth
    ≡ total is_operator ranked + total is_operator close_node
update_path-total_example =
    update_path-total is_operator (λ n cs. is_operator-children n cs) (0 ∷ []) ranked smooth
      (apply_to (codes "rank") plain_rank close_node) (λ _. close_node) (unfold get_path in refl)
      (unfold update_path in refl)

-- The tree of `(close + volume) * cap` is printed without its brackets.
abbrev bracketed : Tree
bracketed =
    node binary [] (codes "*")
      (cons
        (node binary [] (codes "+") (cons close_node (cons (field_node (codes "volume")) nil)) empty
          no_metadata absent)
        (cons (field_node (codes "cap")) nil))
      empty no_metadata absent

parse-bracketed : parse tenths (codes "(close + volume) * cap") ≡ ok bracketed
unfolding parse tokenize lex is_alnum statements statement expression call_node name_node
    number_value put_param find_text mem_text has_param put_literal lower_char text_eq
parse-bracketed = refl

serialize-bracketed : serialize tenths bracketed ≡ codes "close + volume * cap"
unfolding serialize join mem_text text_eq decimal strip
serialize-bracketed = refl

-- Floats that are all infinite
abbrev infinities : Floats
infinities = record {
  Float = ℕ;
  of_text = λ text. some 0;
  whole_part = λ x. none;
  truncate = λ x. none;
  repr = λ x. codes "inf";
  is_zero = λ x. false;
}

-- rank(inf)
abbrev ranked_infinity : Tree
ranked_infinity =
    apply_to (codes "rank") plain_rank (node number [] [] nil empty no_metadata (float 0))

generate_infinity :
    generate infinities default_constraints (codes "turnover") ranked_infinity ≡ none
unfolding generate mutate replace_windows strategy_mutations contains collect operator_paths paths
    paths_from find_text text_eq int_param starts_with signal_paths wrapper_node replace_path
generate_infinity = refl
