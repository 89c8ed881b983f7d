-- ===== src/Rules/Comparison/Lookup.antt =====
-- Which value of a context a dotted path denotes.
use thread_pilot.Common.{
  ℕ, ◌≡◌, ◌≢◌, refl, sym, ap, ◌∙◌, ◌⊎◌, inl, inr, true, false, Option, none, some, List, [], ◌∷◌,
  list_eq, list_eq→eq, list_eq_refl, All, arith, Bool-cases,
}
use mathlib.Core.Path.{subst}
use thread_pilot.Rules.Comparison.Dots.{
  join_dots, NoDots, split_dots-ne, join-split, split_dots-NoDots, split-join,
}
use thread_pilot.Rules.Condition.{
  Value, undefined, null, text, number, boolean, array, object, a_function, Values, Fields, empty,
  field, Js, split_dots, own_field, member, follow, get_nested_value,
}

-- The first field of the name.
pub data Has : Fields → List ℕ → Value → Type 0 where
  at_first : {k : List ℕ} {v : Value} {rest : Fields} → Has (field k v rest) k v
  further :
      {j k : List ℕ} {v w : Value} {rest : Fields} → j ≢ k → Has rest k v → Has (field j w rest) k v

pub data Lacks : Fields → List ℕ → Type 0 where
  no_fields : {k : List ℕ} → Lacks empty k
  not_first :
      {j k : List ℕ} {w : Value} {rest : Fields} → j ≢ k → Lacks rest k → Lacks (field j w rest) k

abbrev pub IsPrimitive : Value → Type 0
IsPrimitive (object fields) = ⊥
IsPrimitive (array items) = ⊥
IsPrimitive _ = Unit

module _ (js : Js) where
  -- One name leads from a value to its field, to what it inherits, or to `undefined`.
  pub data Step : Value → List ℕ → Value → Type 0 where
    own : {fields : Fields} {k : List ℕ} {v : Value} → Has fields k v → Step (object fields) k v
    from_prototype :
        {fields : Fields} {k : List ℕ} {v : Value}
        → Lacks fields k
        → js.inherited k ≡ some v
        → Step (object fields) k v
    no_field :
        {fields : Fields} {k : List ℕ}
        → Lacks fields k
        → js.inherited k ≡ none
        → Step (object fields) k undefined
    of_array :
        {items : Values} {k : List ℕ} {v : Value}
        → js.array_member items k ≡ some v
        → Step (array items) k v
    no_member :
        {items : Values} {k : List ℕ}
        → js.array_member items k ≡ none
        → Step (array items) k undefined
    of_primitive : {v : Value} {k : List ℕ} → IsPrimitive v → Step v k undefined

  pub data Leads : Value → List (List ℕ) → Value → Type 0 where
    arrived : {v : Value} → Leads v [] v
    onward :
        {v w x : Value} {k : List ℕ} {ks : List (List ℕ)}
        → Step v k w
        → Leads w ks x
        → Leads v (k ∷ ks) x

  -- The path is names with dots between them, and they lead from the context to the value.
  pub record Denotes (context : Fields) (path : List ℕ) (v : Value) : Type 0 where
    pub names : List (List ℕ)
    pub a_name : names ≢ []
    pub no_dots : All NoDots names
    pub joined : join_dots names ≡ path
    pub leads : Leads (object context) names v

  Has-own_field :
      (fields : Fields) (k : List ℕ) (v : Value) → Has fields k v → own_field k fields ≡ some v
  unfolding own_field
  Has-own_field fields k v at_first = rw (list_eq_refl k) refl
  Has-own_field fields k v (further {j = j} {rest = rest} ne h) = elim (Bool-cases (list_eq j k)) [
    | inl e ↦ absurd (ne (list_eq→eq j k e))
    | inr e ↦ rw e (Has-own_field rest k v h)
  ]

  Lacks-own_field : (fields : Fields) (k : List ℕ) → Lacks fields k → own_field k fields ≡ none
  unfolding own_field
  Lacks-own_field fields k no_fields = refl
  Lacks-own_field fields k (not_first {j = j} {rest = rest} ne h) =
      elim (Bool-cases (list_eq j k)) [
        | inl e ↦ absurd (ne (list_eq→eq j k e))
        | inr e ↦ rw e (Lacks-own_field rest k h)
      ]

  unequal : (j k : List ℕ) → list_eq j k ≡ false → j ≢ k
  unequal j k h e =
      let self : list_eq j k ≡ true = ap (list_eq j) (sym e) ∙ list_eq_refl j in
      absurd (let both : ⊥ = ground (arith, h, self) in both)

  look_up : (fields : Fields) (k : List ℕ) → ((v : Value) × Has fields k v) ⊎ Lacks fields k
  look_up empty k = inr no_fields
  look_up (field j v rest) k = elim (Bool-cases (list_eq j k)) [
    | inl e ↦ inl (v, subst (λ x. Has (field j v rest) x v) (list_eq→eq j k e) at_first)
    | inr e ↦ elim (look_up rest k) [
      | inl (w, h) ↦ inl (w, further (unequal j k e) h)
      | inr h ↦ inr (not_first (unequal j k e) h)
    ]
  ]

  Step-member : (v : Value) (k : List ℕ) (w : Value) → Step v k w → member js v k ≡ w
  unfolding member
  Step-member (object fields) k w (own h) = rw (Has-own_field fields k w h) refl
  Step-member (object fields) k w (from_prototype l h) = rw (Lacks-own_field fields k l) (rw h refl)
  Step-member (object fields) k w (no_field l h) = rw (Lacks-own_field fields k l) (rw h refl)
  Step-member (array items) k w (of_array h) = rw h refl
  Step-member (array items) k w (no_member h) = rw h refl
  Step-member (object fields) k w (of_primitive h) = absurd h
  Step-member (array items) k w (of_primitive h) = absurd h
  Step-member undefined k w (of_primitive h) = refl
  Step-member null k w (of_primitive h) = refl
  Step-member (text s) k w (of_primitive h) = refl
  Step-member (number n) k w (of_primitive h) = refl
  Step-member (boolean b) k w (of_primitive h) = refl
  Step-member (a_function f) k w (of_primitive h) = refl

  inherits :
      (fields : Fields) (k : List ℕ) (o : Option Value)
      → Lacks fields k
      → js.inherited k ≡ o
      → (w : Value) × Step (object fields) k w
  inherits fields k none l h = (undefined, no_field l h)
  inherits fields k (some v) l h = (v, from_prototype l h)

  of_items :
      (items : Values) (k : List ℕ) (o : Option Value)
      → js.array_member items k ≡ o
      → (w : Value) × Step (array items) k w
  of_items items k none h = (undefined, no_member h)
  of_items items k (some v) h = (v, of_array h)

  steps : (v : Value) (k : List ℕ) → (w : Value) × Step v k w
  steps (object fields) k = elim (look_up fields k) [
    | inl (v, h) ↦ (v, own h)
    | inr l ↦ inherits fields k (js.inherited k) l refl
  ]
  steps (array items) k = of_items items k (js.array_member items k) refl
  steps undefined k = (undefined, of_primitive tt)
  steps null k = (undefined, of_primitive tt)
  steps (text s) k = (undefined, of_primitive tt)
  steps (number n) k = (undefined, of_primitive tt)
  steps (boolean b) k = (undefined, of_primitive tt)
  steps (a_function f) k = (undefined, of_primitive tt)

  member-Step : (v : Value) (k : List ℕ) → Step v k (member js v k)
  member-Step v k = let (w, s) = steps v k in subst (Step v k) (sym (Step-member v k w s)) s

  follow-Leads : (v : Value) (ks : List (List ℕ)) → Leads v ks (follow js v ks)
  unfolding follow
  follow-Leads v [] = arrived
  follow-Leads v (k ∷ ks) = onward (member-Step v k) (follow-Leads (member js v k) ks)

  Leads-follow : (v : Value) (ks : List (List ℕ)) (x : Value) → Leads v ks x → follow js v ks ≡ x
  unfolding follow
  Leads-follow v [] x arrived = refl
  Leads-follow v (k ∷ ks) x (onward {w = w} s l) =
      ap (λ y. follow js y ks) (Step-member v k w s) ∙ Leads-follow w ks x l

module _ (js : Js) (context : Fields) where
  -- Every path denotes what getNestedValue finds, and nothing else.
  pub get_nested_value-Denotes :
      (path : List ℕ) → Denotes js context path (get_nested_value js context path)
  unfolding get_nested_value
  get_nested_value-Denotes path = record {
    names = split_dots path;
    a_name = split_dots-ne path;
    no_dots = split_dots-NoDots path;
    joined = join-split path;
    leads = follow-Leads js (object context) (split_dots path);
  }

  pub Denotes-get_nested_value :
      (path : List ℕ) (v : Value) → Denotes js context path v → get_nested_value js context path ≡ v
  unfolding get_nested_value
  Denotes-get_nested_value path v d =
      ap (λ p. follow js (object context) (split_dots p)) (sym d.joined)
      ∙ ap (follow js (object context)) (split-join d.names d.a_name d.no_dots)
      ∙ Leads-follow js (object context) d.names v d.leads
