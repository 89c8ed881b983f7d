-- ===== src/Rules/Tests.antt =====
-- A concrete condition, the field `a.b` is at least 3, and concrete claims of executions.
use thread_pilot.Common.{◌≡◌, ◌≤◌, ◌↔◌, List, [], ◌∷◌, true, none, [], ◌∷◌, leb, ltb, ◌==◌}
use thread_pilot.Rules.Condition.{
  Fields, empty, field, number, object, Js, at_least, a_number, Ast, compare_field, all_of, nil,
  cons, evaluate_ast,
}
use thread_pilot.Rules.Denotation.{Holds, evaluate_ast_iff}
use thread_pilot.Rules.Budget.{Call}
use thread_pilot.Rules.Budget.Bound.{admitted, spent, bound, after_claims, admitted-le-bound}

-- Numbers that are compared as their bits are, and objects that inherit nothing.
abbrev plain : Js
plain = record {
  equal = λ m n. m == n;
  same = λ m n. m == n;
  less = ltb;
  at_most = leb;
  inherited = λ key. none;
  array_member = λ items key. none;
}

abbrev context : Fields
context = field (97 ∷ []) (object (field (98 ∷ []) (number 5) empty)) empty

abbrev enough : Ast
enough = compare_field (97 ∷ 46 ∷ 98 ∷ []) at_least (a_number 3)

evaluate_ast_iff_example :
    (evaluate_ast plain (all_of (cons enough nil)) context ≡ true)
    ↔ Holds plain context (all_of (cons enough nil))
evaluate_ast_iff_example = evaluate_ast_iff plain (all_of (cons enough nil)) context

-- Two claims of one execution key and a claim of another, for a rule with one execution a day.
abbrev some_claims : List Call
some_claims =
    record { now = 0; lease_token = 1; rule_id = 1; window = 1; key = 1; max_daily = 1 }
    ∷ record { now = 10; lease_token = 2; rule_id = 1; window = 1; key = 1; max_daily = 1 }
    ∷ record { now = 20; lease_token = 3; rule_id = 1; window = 1; key = 2; max_daily = 1 }
    ∷ []

admitted-le-bound_example :
    (admitted 1 1 (after_claims some_claims (record { budgets = []; logs = [] })).logs
      ≡ spent 1 1 (after_claims some_claims (record { budgets = []; logs = [] })).budgets)
    × (admitted 1 1 (after_claims some_claims (record { budgets = []; logs = [] })).logs
        ≤ bound 1 1 (after_claims some_claims (record { budgets = []; logs = [] })).budgets)
admitted-le-bound_example = admitted-le-bound 1 1 some_claims
