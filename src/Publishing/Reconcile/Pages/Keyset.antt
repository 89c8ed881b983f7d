-- ===== src/Publishing/Reconcile/Pages/Keyset.antt =====
-- The rows of reconciliation's scans in the order of their keys: what comes after the last row of a page.
use thread_pilot.Common.{
  ℕ, zero, suc, ◌≡◌, refl, ap, ◌∙◌, Bool, true, false, List, [], ◌∷◌, arith, All, if◌then◌else◌,
}
use thread_pilot.Publishing.Reconcile.Pages.{
  Row, comes_after, rows_after, first_rows, last_of, InOrder, without,
}

pub after_trans :
    (a b c : Row) → comes_after a b ≡ true → comes_after b c ≡ true → comes_after a c ≡ true
after_trans a b c h k = ground arith

pub after_asym : (a b : Row) → comes_after a b ≡ true → comes_after b a ≡ false
after_asym a b h = ground arith

pub after_irrefl : (a : Row) → comes_after a a ≡ false
after_irrefl a = ground arith

-- All come after the first.
pub rows_after-All :
    (last : Row) (rs : List Row) → All (λ x. comes_after last x ≡ true) rs → rows_after last rs ≡ rs
rows_after-All last [] all = refl
rows_after-All last (r ∷ rs) (h, all) =
    let rest = rows_after-All last rs all in ground (arith, h, rest)

-- Once a later row is the last, the earlier one no longer counts.
pub rows_after-twice :
    (a b : Row) (rs : List Row)
    → comes_after a b ≡ true
    → rows_after b (rows_after a rs) ≡ rows_after b rs
rows_after-twice a b [] h = refl
rows_after-twice a b (r ∷ rs) h =
    let rest = rows_after-twice a b rs h in
    let trans = after_trans a b r h in ground (arith, rest, trans)

pub rows_after-after :
    (last : Row) (rs : List Row) → All (λ x. comes_after last x ≡ true) (rows_after last rs)
rows_after-after last [] = tt
rows_after-after last (r ∷ rs) = on_test (comes_after last r) refl (rows_after-after last rs)
  where
    on_test :
        (b : Bool)
        → comes_after last r ≡ b
        → All (λ x. comes_after last x ≡ true) (rows_after last rs)
        → All
            (λ x. comes_after last x ≡ true)
            (if b then r ∷ rows_after last rs else rows_after last rs)
    on_test true e rest = (e, rest)
    on_test false e rest = rest

-- The last row of a page comes after whatever all of them come after.
pub last_of-after :
    (a r : Row) (n : ℕ) (rs : List Row)
    → comes_after a r ≡ true
    → All (λ x. comes_after a x ≡ true) rs
    → comes_after a (last_of r (first_rows n rs)) ≡ true
last_of-after a r zero rs h all = h
last_of-after a r (suc n) [] h all = h
last_of-after a r (suc n) (q ∷ qs) h (k, all) = last_of-after a q n qs k all

-- After the last row of a page come the rows that are not on it.
pub rows_after-page :
    (r : Row) (n : ℕ) (rs : List Row)
    → InOrder (r ∷ rs)
    → rows_after (last_of r (first_rows n rs)) (r ∷ rs) ≡ without n rs
rows_after-page r zero rs (all, order) =
    let rest = rows_after-All r rs all in let self = after_irrefl r in ground (arith, rest, self)
rows_after-page r (suc n) [] order = let self = after_irrefl r in ground (arith, self)
rows_after-page r (suc n) (q ∷ qs) ((h, all), order) =
    let rest = rows_after-page q n qs order in
    let last = last_of q (first_rows n qs) in
    let gone : comes_after last r ≡ false = after_asym r last (last_of-after r q n qs h all) in
    ap (λ b. if b then r ∷ rows_after last (q ∷ qs) else rows_after last (q ∷ qs)) gone ∙ rest

pub InOrder-without : (n : ℕ) (rs : List Row) → InOrder rs → InOrder (without n rs)
InOrder-without zero rs order = order
InOrder-without (suc n) [] order = order
InOrder-without (suc n) (r ∷ rs) (all, order) = InOrder-without n rs order
