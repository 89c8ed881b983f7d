-- ===== src/Rules/Denotation.antt =====
-- What a condition says, independently of its evaluation.
use thread_pilot.Common.{
  ap, ◌∙◌, ◌≡◌, refl, ◌↔◌, ◌≢◌, arith, ◌⊎◌, inl, inr, Bool, true, false, not, ◌&&◌, ◌||◌,
}
use thread_pilot.Rules.Comparison.{Says, compare_values-Says, Says-compare_values}
use thread_pilot.Rules.Comparison.Lookup.{
  Denotes, get_nested_value-Denotes, Denotes-get_nested_value,
}
use thread_pilot.Rules.Condition.{
  Value, Fields, Js, Ast, compare_field, all_of, any_of, negation, malformed, Asts, nil, cons,
  get_nested_value, compare_values, evaluate_ast, every_ast, some_ast,
}

abbrev pub NonEmpty : Asts → Type 0
NonEmpty nil = ⊥
NonEmpty (cons a rest) = Unit

module _ (js : Js) (context : Fields) where
  -- The condition, as a proposition on the context.
  mutual
    pub Holds : Ast → Type 0
    Holds (compare_field path op e) = (v : Value) × Denotes js context path v × Says js op v e
    Holds (all_of xs) = NonEmpty xs × HoldAll xs
    Holds (any_of xs) = HoldSome xs
    Holds (negation a) = ¬ Holds a
    Holds malformed = ⊥

    pub HoldAll : Asts → Type 0
    HoldAll nil = Unit
    HoldAll (cons a rest) = Holds a × HoldAll rest

    pub HoldSome : Asts → Type 0
    HoldSome nil = ⊥
    HoldSome (cons a rest) = Holds a ⊎ HoldSome rest

  and_split : (b c : Bool) → (b && c) ≡ true → (b ≡ true) × (c ≡ true)
  and_split b c h = ground arith

  or_split : (b c : Bool) → (b || c) ≡ true → (b ≡ true) ⊎ (c ≡ true)
  or_split b c h = ground arith

  refutes : (b : Bool) → not b ≡ true → b ≢ true
  refutes b h e = ground arith

  is_false : (b : Bool) → b ≢ true → not b ≡ true
  is_false true h = absurd (h refl)
  is_false false h = refl

  or_true : (b : Bool) → (b || true) ≡ true
  or_true true = refl
  or_true false = refl

  mutual
    unfolding Holds HoldAll HoldSome evaluate_ast every_ast some_ast

    sound : (a : Ast) → evaluate_ast js a context ≡ true → Holds a
    sound (compare_field path op e) h = (
      get_nested_value js context path,
      get_nested_value-Denotes js context path,
      compare_values-Says js op (get_nested_value js context path) e h,
    )
    sound (all_of nil) h = cc
    sound (all_of (cons a rest)) h = (tt, every_sound (cons a rest) h)
    sound (any_of nil) h = cc
    sound (any_of (cons a rest)) h = some_sound (cons a rest) h
    sound (negation a) h = λ p. refutes _ h (complete a p)
    sound malformed h = cc

    complete : (a : Ast) → Holds a → evaluate_ast js a context ≡ true
    complete (compare_field path op e) (v, denotes, says) =
        ap (λ x. compare_values js op x e) (Denotes-get_nested_value js context path v denotes)
        ∙ Says-compare_values js op v e says
    complete (all_of nil) h = absurd h.0
    complete (all_of (cons a rest)) h = every_complete (cons a rest) h.1
    complete (any_of nil) h = absurd h
    complete (any_of (cons a rest)) h = some_complete (cons a rest) h
    complete (negation a) h = is_false _ (λ e. h (sound a e))
    complete malformed h = absurd h

    every_sound : (xs : Asts) → every_ast js xs context ≡ true → HoldAll xs
    every_sound nil h = tt
    every_sound (cons a rest) h = let (p, q) = and_split _ _ h in (sound a p, every_sound rest q)

    every_complete : (xs : Asts) → HoldAll xs → every_ast js xs context ≡ true
    every_complete nil h = refl
    every_complete (cons a rest) h = rw (complete a h.0, every_complete rest h.1) refl

    some_sound : (xs : Asts) → some_ast js xs context ≡ true → HoldSome xs
    some_sound nil h = cc
    some_sound (cons a rest) h = elim (or_split _ _ h) [
      | inl p ↦ inl (sound a p)
      | inr q ↦ inr (some_sound rest q)
    ]

    some_complete : (xs : Asts) → HoldSome xs → some_ast js xs context ≡ true
    some_complete nil h = absurd h
    some_complete (cons a rest) (inl p) = rw (complete a p) refl
    some_complete (cons a rest) (inr q) = rw (some_complete rest q) (or_true _)

-- `evaluateAST` is true exactly if the condition holds. A comparison holds if the value that its path
-- denotes (the names between the dots lead to it through own fields, inherited ones and arrays)
-- stands in the relation that its operator names to the expected one, with the value on the left;
-- `and` of a non-empty list holds if all members do, `or` if one does, `not` if its condition does
-- not, and nothing else does. Numbers are compared as the language does.
pub evaluate_ast_iff :
    (js : Js) (a : Ast) (context : Fields) → (evaluate_ast js a context ≡ true) ↔ Holds js context a
evaluate_ast_iff js a context = (sound js context a, complete js context a)
