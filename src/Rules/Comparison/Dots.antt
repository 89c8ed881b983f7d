-- ===== src/Rules/Comparison/Dots.antt =====
-- A dotted path as names with dots between them: `path.split('.')` is the inverse of joining them.
use thread_pilot.Common.{
  ℕ, ◌≡◌, ◌≢◌, refl, sym, ap, ◌∙◌, inl, inr, List, [], ◌∷◌, ◌++◌, ◌==◌, ==_iff, All, arith,
  Bool-cases,
}
use thread_pilot.Rules.Condition.{prepend, split_dots}

-- The names between the dots, put together again.
abbrev pub join_dots : List (List ℕ) → List ℕ
join_dots [] = []
join_dots (k ∷ []) = k
join_dots (k ∷ j ∷ ks) = k ++ b'.' ∷ join_dots (j ∷ ks)

join_dots-prepend : (c : ℕ) (ks : List (List ℕ)) → join_dots (prepend c ks) ≡ c ∷ join_dots ks
join_dots-prepend c [] = refl
join_dots-prepend c (k ∷ []) = refl
join_dots-prepend c (k ∷ j ∷ ks) = refl

pub split_dots-ne : (cs : List ℕ) → split_dots cs ≢ []
unfolding split_dots
split_dots-ne [] h = cc
split_dots-ne (c ∷ cs) h = elim (Bool-cases (c == b'.')) [
  | inl e ↦ absurd (let no : ⊥ = ground (arith, e, h) in no)
  | inr e ↦
      prepended (split_dots cs) (let p : prepend c (split_dots cs) ≡ [] = ground (arith, e, h) in p)
]
  where
    prepended : (ks : List (List ℕ)) → prepend c ks ≢ []
    prepended [] h = cc
    prepended (k ∷ ks) h = cc

join_dots-after : (ks : List (List ℕ)) → ks ≢ [] → join_dots ([] ∷ ks) ≡ b'.' ∷ join_dots ks
join_dots-after [] ne = absurd (ne refl)
join_dots-after (k ∷ ks) ne = refl

pub join-split : (cs : List ℕ) → join_dots (split_dots cs) ≡ cs
unfolding split_dots
join-split [] = refl
join-split (c ∷ cs) = elim (Bool-cases (c == b'.')) [
  | inl e ↦ rw e (
      join_dots-after (split_dots cs) (split_dots-ne cs)
      ∙ ap (λ x. b'.' ∷ x) (join-split cs)
      ∙ ap (λ x. x ∷ cs) (sym ((==_iff c b'.').0 e)))
  | inr e ↦ rw e (join_dots-prepend c (split_dots cs) ∙ ap (λ x. c ∷ x) (join-split cs))
]

abbrev pub NoDots : List ℕ → Type 0
NoDots = All (λ c. c ≢ b'.')

prepend-NoDots : (c : ℕ) (ks : List (List ℕ)) → c ≢ b'.' → All NoDots ks → All NoDots (prepend c ks)
prepend-NoDots c [] ne all = ((ne, tt), tt)
prepend-NoDots c (k ∷ ks) ne (h, all) = ((ne, h), all)

pub split_dots-NoDots : (cs : List ℕ) → All NoDots (split_dots cs)
unfolding split_dots
split_dots-NoDots [] = (tt, tt)
split_dots-NoDots (c ∷ cs) = elim (Bool-cases (c == b'.')) [
  | inl e ↦ rw e (tt, split_dots-NoDots cs)
  | inr e ↦
      rw e
        (prepend-NoDots c (split_dots cs) (λ same. ground (arith, e, same)) (split_dots-NoDots cs))
]

split_dots-last : (k : List ℕ) → NoDots k → split_dots k ≡ k ∷ []
unfolding split_dots
split_dots-last [] h = refl
split_dots-last (c ∷ cs) (ne, h) = elim (Bool-cases (c == b'.')) [
  | inl e ↦ absurd (ne ((==_iff c b'.').0 e))
  | inr e ↦ rw e (ap (prepend c) (split_dots-last cs h))
]

split_dots-first :
    (k rest : List ℕ) → NoDots k → split_dots (k ++ b'.' ∷ rest) ≡ k ∷ split_dots rest
unfolding split_dots
split_dots-first [] rest h = refl
split_dots-first (c ∷ cs) rest (ne, h) = elim (Bool-cases (c == b'.')) [
  | inl e ↦ absurd (ne ((==_iff c b'.').0 e))
  | inr e ↦ rw e (ap (prepend c) (split_dots-first cs rest h))
]

pub split-join : (ks : List (List ℕ)) → ks ≢ [] → All NoDots ks → split_dots (join_dots ks) ≡ ks
split-join [] ne all = absurd (ne refl)
split-join (k ∷ []) ne (h, all) = split_dots-last k h
split-join (k ∷ j ∷ ks) ne (h, all) =
    split_dots-first k (join_dots (j ∷ ks)) h ∙ ap (λ x. k ∷ x) (split-join (j ∷ ks) (λ e. cc) all)
