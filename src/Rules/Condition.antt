-- ===== src/Rules/Condition.antt =====
-- evaluateAST and getNestedValue. A text is a list of UTF-16 code units, a number the bits of its
-- double; the comparisons of doubles and what every object inherits are the parameter `Js`.
use thread_pilot.Common.{
  ℕ, Bool, true, false, not, ◌&&◌, ◌||◌, Option, none, some, List, [], ◌∷◌, list_eq, ◌==◌, includes,
  if◌then◌else◌,
}

-- A JSON value, or `undefined`.
mutual
  pub data Value : Type 0 where
    undefined null : Value
    text : List ℕ → Value
    number : ℕ → Value
    boolean : Bool → Value
    array : Values → Value
    object : Fields → Value
    a_function : ℕ → Value

  pub data Values : Type 0 where
    end : Values
    item : Value → Values → Values

  pub data Fields : Type 0 where
    empty : Fields
    field : List ℕ → Value → Fields → Fields

pub record Js : Type 0 where
  pub equal : ℕ → ℕ → Bool  -- `===` on numbers
  pub same : ℕ → ℕ → Bool  -- the equality of `Array.prototype.includes`
  pub less : ℕ → ℕ → Bool
  pub at_most : ℕ → ℕ → Bool
  pub inherited : List ℕ → Option Value  -- what `in` finds on the prototype of an object
  pub array_member : Values → List ℕ → Option Value  -- an index, `length`, or inherited

-- The members of a list of allowed values.
pub data Scalar : Type 0 where
  of_text : List ℕ → Scalar
  of_number : ℕ → Scalar

pub data Expected : Type 0 where
  a_text : List ℕ → Expected
  a_number : ℕ → Expected
  a_boolean : Bool → Expected
  one_of : List Scalar → Expected

pub data ComparisonOp : Type 0 where
  equals differs above at_least below up_to is_in not_in contains unknown : ComparisonOp

-- An object that has none of the four shapes is `malformed`.
mutual
  pub data Ast : Type 0 where
    compare_field : List ℕ → ComparisonOp → Expected → Ast
    all_of : Asts → Ast
    any_of : Asts → Ast
    negation : Ast → Ast
    malformed : Ast

  pub data Asts : Type 0 where
    nil : Asts
    cons : Ast → Asts → Asts

-- `path.split('.')`.
abbrev pub prepend : ℕ → List (List ℕ) → List (List ℕ)
prepend c [] = (c ∷ []) ∷ []
prepend c (part ∷ parts) = (c ∷ part) ∷ parts

unfoldable pub split_dots : List ℕ → List (List ℕ)
split_dots [] = [] ∷ []
split_dots (c ∷ cs) = if c == b'.' then [] ∷ split_dots cs else prepend c (split_dots cs)

unfoldable pub own_field : List ℕ → Fields → Option Value
own_field key empty = none
own_field key (field k v rest) = if list_eq k key then some v else own_field key rest

abbrev or_undefined : Option Value → Value
or_undefined none = undefined
or_undefined (some v) = v

abbrev or_else : Option Value → Option Value → Option Value
or_else none d = d
or_else (some v) d = some v

module _ (js : Js) where
  -- One step of the path.
  unfoldable pub member : Value → List ℕ → Value
  unfolding own_field
  member (object fields) part = or_undefined (or_else (own_field part fields) (js.inherited part))
  member (array items) part = or_undefined (js.array_member items part)
  member _ part = undefined

  unfoldable pub follow : Value → List (List ℕ) → Value
  follow v [] = v
  follow v (part ∷ parts) = follow (member v part) parts

  unfoldable pub get_nested_value : Fields → List ℕ → Value
  get_nested_value context path = follow (object context) (split_dots path)

  -- `actual === expected`; a list of the condition is no object of the context.
  abbrev pub strictly_equal : Value → Expected → Bool
  strictly_equal (text s) (a_text t) = list_eq s t
  strictly_equal (number m) (a_number n) = js.equal m n
  strictly_equal (boolean b) (a_boolean c) = if b then c else not c
  strictly_equal _ _ = false

  abbrev pub on_numbers : (ℕ → ℕ → Bool) → Value → Expected → Bool
  on_numbers test (number m) (a_number n) = test m n
  on_numbers test _ _ = false

  abbrev pub is_scalar : Value → Scalar → Bool
  is_scalar (text s) (of_text t) = list_eq s t
  is_scalar (number m) (of_number n) = js.same m n
  is_scalar _ _ = false

  abbrev pub is_among : Value → List Scalar → Bool
  is_among v [] = false
  is_among v (x ∷ xs) = is_scalar v x || is_among v xs

  abbrev pub in_list : Value → Expected → Bool
  in_list v (one_of xs) = is_among v xs
  in_list v _ = false

  abbrev pub not_in_list : Value → Expected → Bool
  not_in_list v (one_of xs) = not (is_among v xs)
  not_in_list v _ = false

  abbrev pub has_text : Value → Expected → Bool
  has_text (text s) (a_text t) = includes s t
  has_text _ _ = false

  unfoldable pub compare_values : ComparisonOp → Value → Expected → Bool
  compare_values equals v e = strictly_equal v e
  compare_values differs v e = not (strictly_equal v e)
  compare_values above v e = on_numbers (λ m n. js.less n m) v e
  compare_values at_least v e = on_numbers (λ m n. js.at_most n m) v e
  compare_values below v e = on_numbers js.less v e
  compare_values up_to v e = on_numbers js.at_most v e
  compare_values is_in v e = in_list v e
  compare_values not_in v e = not_in_list v e
  compare_values contains v e = has_text v e
  compare_values unknown v e = false

  unfoldable mutual
    pub evaluate_ast : Ast → Fields → Bool
    evaluate_ast (compare_field path op e) context =
        compare_values op (get_nested_value context path) e
    evaluate_ast (all_of nil) context = false
    evaluate_ast (all_of (cons a rest)) context = every_ast (cons a rest) context
    evaluate_ast (any_of nil) context = false
    evaluate_ast (any_of (cons a rest)) context = some_ast (cons a rest) context
    evaluate_ast (negation a) context = not (evaluate_ast a context)
    evaluate_ast malformed context = false

    pub every_ast : Asts → Fields → Bool
    every_ast nil context = true
    every_ast (cons a rest) context = evaluate_ast a context && every_ast rest context

    pub some_ast : Asts → Fields → Bool
    some_ast nil context = false
    some_ast (cons a rest) context = evaluate_ast a context || some_ast rest context
