-- ===== src/Rules/Comparison.antt =====
-- What a comparison says of a value, and which value a path denotes, independently of evaluateAST and
-- getNestedValue. The comparisons of doubles are those of the parameter `Js`.
pub mod Dots
pub mod Lookup
use thread_pilot.Common.{
  ℕ, ◌≡◌, refl, ap, ◌∙◌, ◌⊎◌, inl, inr, Bool, true, false, not, ◌&&◌, ◌||◌, List, [], ◌∷◌, ◌++◌,
  if◌then◌else◌, ◌≢◌, arith, list_eq, list_eq→eq, list_eq_refl, starts_with, includes, Bool-cases,
}
use mathlib.Core.Path.{subst}
use thread_pilot.Rules.Condition.{
  Value, text, number, boolean, Js, Scalar, of_text, of_number, Expected, a_text, a_number,
  a_boolean, one_of, ComparisonOp, equals, differs, above, at_least, below, up_to, is_in, not_in,
  contains, unknown, strictly_equal, on_numbers, is_scalar, is_among, in_list, not_in_list,
  has_text, compare_values,
}

module _ (js : Js) where
  pub data Equal : Value → Expected → Type 0 where
    same_text : {s : List ℕ} → Equal (text s) (a_text s)
    same_number : {m n : ℕ} → js.equal m n ≡ true → Equal (number m) (a_number n)
    same_boolean : {b : Bool} → Equal (boolean b) (a_boolean b)

  pub data Among : Value → List Scalar → Type 0 where
    text_here : {s : List ℕ} {xs : List Scalar} → Among (text s) (of_text s ∷ xs)
    number_here :
        {m n : ℕ} {xs : List Scalar} → js.same m n ≡ true → Among (number m) (of_number n ∷ xs)
    later : {v : Value} {x : Scalar} {xs : List Scalar} → Among v xs → Among v (x ∷ xs)

  -- `v op e`, with the value on the left.
  pub data Says : ComparisonOp → Value → Expected → Type 0 where
    says_equals : {v : Value} {e : Expected} → Equal v e → Says equals v e
    says_differs : {v : Value} {e : Expected} → ¬ Equal v e → Says differs v e
    says_above : {m n : ℕ} → js.less n m ≡ true → Says above (number m) (a_number n)
    says_at_least : {m n : ℕ} → js.at_most n m ≡ true → Says at_least (number m) (a_number n)
    says_below : {m n : ℕ} → js.less m n ≡ true → Says below (number m) (a_number n)
    says_up_to : {m n : ℕ} → js.at_most m n ≡ true → Says up_to (number m) (a_number n)
    says_in : {v : Value} {xs : List Scalar} → Among v xs → Says is_in v (one_of xs)
    says_not_in : {v : Value} {xs : List Scalar} → ¬ Among v xs → Says not_in v (one_of xs)
    says_contains :
        {s t : List ℕ} (before after : List ℕ)
        → s ≡ before ++ (t ++ after)
        → Says contains (text s) (a_text t)

  boolean_eq : (b c : Bool) → (if b then c else not c) ≡ true → b ≡ c
  boolean_eq true c h = ground arith
  boolean_eq false c h = ground arith

  strictly_equal-Equal : (v : Value) (e : Expected) → strictly_equal js v e ≡ true → Equal v e
  strictly_equal-Equal (text s) (a_text t) h =
      subst (λ x. Equal (text s) (a_text x)) (list_eq→eq s t h) same_text
  strictly_equal-Equal (number m) (a_number n) h = same_number h
  strictly_equal-Equal (boolean b) (a_boolean c) h =
      subst (λ x. Equal (boolean b) (a_boolean x)) (boolean_eq b c h) same_boolean
  strictly_equal-Equal _ _ h = cc

  Equal-strictly_equal : (v : Value) (e : Expected) → Equal v e → strictly_equal js v e ≡ true
  Equal-strictly_equal v e (same_text {s = s}) = list_eq_refl s
  Equal-strictly_equal v e (same_number h) = h
  Equal-strictly_equal v e (same_boolean {b = true}) = refl
  Equal-strictly_equal v e (same_boolean {b = false}) = refl

  is_among-Among : (v : Value) (xs : List Scalar) → is_among js v xs ≡ true → Among v xs
  is_among-Among v [] h = cc
  is_among-Among v (x ∷ xs) h = elim (Bool-cases (is_scalar js v x)) [
    | inl e ↦ at_first v x e
    | inr e ↦ later (is_among-Among v xs (ground arith))
  ]
    where
      at_first : (v : Value) (x : Scalar) → is_scalar js v x ≡ true → Among v (x ∷ xs)
      at_first (text s) (of_text t) e =
          subst (λ y. Among (text s) (of_text y ∷ xs)) (list_eq→eq s t e) text_here
      at_first (number m) (of_number n) e = number_here e
      at_first _ _ e = cc

  Among-is_among : (v : Value) (xs : List Scalar) → Among v xs → is_among js v xs ≡ true
  Among-is_among v xs (text_here {s = s}) = rw (list_eq_refl s) refl
  Among-is_among v xs (number_here h) = rw h refl
  Among-is_among v xs (later {xs = rest} p) =
      let more = Among-is_among v rest p in ground (arith, more)

starts_with_sound : (s t : List ℕ) → starts_with s t ≡ true → (after : List ℕ) × (s ≡ t ++ after)
starts_with_sound s [] h = (s, refl)
starts_with_sound [] (c ∷ cs) h = cc
starts_with_sound (d ∷ ds) (c ∷ cs) h =
    let (after, e) = starts_with_sound ds cs (ground arith) in
    let same : d ≡ c = ground arith in (after, ap (λ x. x ∷ ds) same ∙ ap (λ xs. c ∷ xs) e)

includes_sound :
    (s t : List ℕ)
    → includes s t ≡ true
    → (before : List ℕ) × (after : List ℕ) × (s ≡ before ++ (t ++ after))
includes_sound [] t h = let (after, e) = starts_with_sound [] t h in ([], after, e)
includes_sound (c ∷ cs) t h = elim (Bool-cases (starts_with (c ∷ cs) t)) [
  | inl here ↦ let (after, e) = starts_with_sound (c ∷ cs) t here in ([], after, e)
  | inr further_on ↦
      let (before, after, e) = includes_sound cs t (ground arith) in
      (c ∷ before, after, ap (λ xs. c ∷ xs) e)
]

starts_with-++ : (t after : List ℕ) → starts_with (t ++ after) t ≡ true
starts_with-++ [] after = refl
starts_with-++ (c ∷ cs) after = let rest = starts_with-++ cs after in ground (arith, rest)

starts-includes : (s t : List ℕ) → starts_with s t ≡ true → includes s t ≡ true
starts-includes [] t h = h
starts-includes (c ∷ cs) t h = rw h refl

includes-++ : (before t after : List ℕ) → includes (before ++ (t ++ after)) t ≡ true
includes-++ [] t after = starts-includes (t ++ after) t (starts_with-++ t after)
includes-++ (c ∷ cs) t after = let rest = includes-++ cs t after in ground (arith, rest)

module _ (js : Js) where
  negated : (b : Bool) → not b ≡ true → b ≢ true
  negated b h e = ground arith

  pub compare_values-Says :
      (op : ComparisonOp) (v : Value) (e : Expected)
      → compare_values js op v e ≡ true
      → Says js op v e
  unfolding compare_values
  compare_values-Says equals v e h = says_equals (strictly_equal-Equal js v e h)
  compare_values-Says differs v e h =
      says_differs (λ p. negated _ h (Equal-strictly_equal js v e p))
  compare_values-Says above (number m) (a_number n) h = says_above h
  compare_values-Says at_least (number m) (a_number n) h = says_at_least h
  compare_values-Says below (number m) (a_number n) h = says_below h
  compare_values-Says up_to (number m) (a_number n) h = says_up_to h
  compare_values-Says is_in v (one_of xs) h = says_in (is_among-Among js v xs h)
  compare_values-Says not_in v (one_of xs) h =
      says_not_in (λ p. negated _ h (Among-is_among js v xs p))
  compare_values-Says contains (text s) (a_text t) h =
      let (before, after, e) = includes_sound s t h in says_contains before after e
  compare_values-Says _ _ _ h = cc

  is_false : (b : Bool) → b ≢ true → not b ≡ true
  is_false true h = absurd (h refl)
  is_false false h = refl

  pub Says-compare_values :
      (op : ComparisonOp) (v : Value) (e : Expected)
      → Says js op v e
      → compare_values js op v e ≡ true
  unfolding compare_values
  Says-compare_values op v e (says_equals p) = Equal-strictly_equal js v e p
  Says-compare_values op v e (says_differs p) = is_false _ (λ h. p (strictly_equal-Equal js v e h))
  Says-compare_values op v e (says_above h) = h
  Says-compare_values op v e (says_at_least h) = h
  Says-compare_values op v e (says_below h) = h
  Says-compare_values op v e (says_up_to h) = h
  Says-compare_values op v e (says_in {xs = xs} p) = Among-is_among js v xs p
  Says-compare_values op v e (says_not_in {xs = xs} p) =
      is_false _ (λ h. p (is_among-Among js v xs h))
  Says-compare_values op v e (says_contains {t = t} before after same) =
      ap (λ x. includes x t) same ∙ includes-++ before t after
