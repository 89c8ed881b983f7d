-- ===== src/Publishing/Reconcile/Pages/Visits.antt =====
-- Which rows the pages of a scan visit.
use thread_pilot.Common.{
  ℕ, zero, suc, ◌+◌, ◌*◌, ◌≤◌, ◌<◌, ◌≡◌, refl, sym, ap, ◌∙◌, true, false, Option, none, some, List,
  [], ◌∷◌, ◌++◌, ltb, ltb→lt, lt→ltb, arith, All, length, if◌then◌else◌, Bool-cases, ◌⊎◌, inl, inr,
}
use mathlib.Core.Path.{subst}
use thread_pilot.Publishing.Reconcile.Pages.{
  Row, comes_after, rows_after, rest_after, first_rows, cursor, InMilliseconds, last_of, last_row,
  scan_pages, InOrder, without,
}
use thread_pilot.Publishing.Reconcile.Pages.Keyset.{
  rows_after-twice, rows_after-after, last_of-after, rows_after-page, InOrder-without,
}

first_rows-nil : (n : ℕ) → first_rows n [] ≡ []
first_rows-nil zero = refl
first_rows-nil (suc n) = refl

first_rows-add :
    (m n : ℕ) (rs : List Row)
    → first_rows (m + n) rs ≡ first_rows m rs ++ first_rows n (without m rs)
first_rows-add zero n rs = let sum : 0 + n ≡ n = omega arith in ap (λ k. first_rows k rs) sum
first_rows-add (suc m) n [] = first_rows-nil (suc m + n) ∙ sym (first_rows-nil n)
first_rows-add (suc m) n (r ∷ rs) =
    let sum : suc m + n ≡ suc (m + n) = omega arith in
    ap (λ k. first_rows k (r ∷ rs)) sum ∙ ap (λ x. r ∷ x) (first_rows-add m n rs)

first_rows-short :
    (m n : ℕ) (rs : List Row)
    → length (first_rows m rs) < m
    → first_rows (m + n) rs ≡ first_rows m rs
first_rows-short zero n rs short = absurd (let no_row : ⊥ = omega arith in no_row)
first_rows-short (suc m) n [] short = first_rows-nil (suc m + n)
first_rows-short (suc m) n (r ∷ rs) short =
    let sum : suc m + n ≡ suc (m + n) = omega arith in
    ap (λ k. first_rows k (r ∷ rs)) sum ∙ ap (λ x. r ∷ x) (first_rows-short m n rs (omega arith))

first_rows-le : (m : ℕ) (rs : List Row) → length (first_rows m rs) ≤ m
first_rows-le zero rs = omega arith
first_rows-le (suc m) [] = omega arith
first_rows-le (suc m) (r ∷ rs) = let rest = first_rows-le m rs in omega arith

-- What is left for the next page, once these rows were visited.
data Linked (rs : List Row) : Option Row → List Row → Type 0 where
  at_first : Linked rs none rs
  at_last :
      {last : Row} {left : List Row}
      → rows_after last rs ≡ left
      → All (λ x. comes_after last x ≡ true) left
      → Linked rs (some last) left

Linked-rest :
    (rs : List Row) (last : Option Row) (left : List Row)
    → Linked rs last left
    → rest_after last rs ≡ left
Linked-rest rs none left at_first = refl
Linked-rest rs (some last) left (at_last e all) = e

later_rows :
    (r : Row) (n : ℕ) (qs : List Row)
    → InOrder (r ∷ qs)
    → All (λ x. comes_after (last_of r (first_rows n qs)) x ≡ true) (without n qs)
later_rows r n qs order =
    subst (All (λ x. comes_after (last_of r (first_rows n qs)) x ≡ true))
      (rows_after-page r n qs order) (rows_after-after (last_of r (first_rows n qs)) (r ∷ qs))

next_page-Linked :
    (rs : List Row) (last : Option Row) (r : Row) (n : ℕ) (qs : List Row)
    → InOrder (r ∷ qs)
    → Linked rs last (r ∷ qs)
    → Linked rs (some (last_of r (first_rows n qs))) (without n qs)
next_page-Linked rs last r n qs order at_first =
    at_last (rows_after-page r n qs order) (later_rows r n qs order)
next_page-Linked rs (some l) r n qs order (at_last e (h, all)) =
    let k = last_of r (first_rows n qs) in
    at_last
      (sym (rows_after-twice l k rs (last_of-after l r n qs h all))
        ∙ ap (rows_after k) e
        ∙ rows_after-page r n qs order)
      (later_rows r n qs order)

whole_last :
    (r : Row) (n : ℕ) (qs : List Row)
    → InMilliseconds (r ∷ qs)
    → cursor (last_of r (first_rows n qs)) ≡ last_of r (first_rows n qs)
whole_last r zero qs (h, all) = ap (λ t. record r { time = t }) h
whole_last r (suc n) [] (h, all) = ap (λ t. record r { time = t }) h
whole_last r (suc n) (q ∷ qs) (h, all) = whole_last q n qs all

InMilliseconds-without : (n : ℕ) (rs : List Row) → InMilliseconds rs → InMilliseconds (without n rs)
InMilliseconds-without zero rs all = all
InMilliseconds-without (suc n) [] all = all
InMilliseconds-without (suc n) (r ∷ rs) (h, all) = InMilliseconds-without n rs all

-- One round of the loop, from the rows that come after the last.
abbrev turn : ℕ → ℕ → ℕ → ℕ → Option Row → List Row → List Row → List Row
turn fuel n limit processed last rs x =
    let page = first_rows (suc n) x in
    let more = scan_pages fuel (suc n) limit (processed + length page) (last_row last page) rs in
    if ltb processed limit then (if ltb (length page) (suc n) then page else page ++ more) else []

turn_page :
    (fuel n limit processed k : ℕ) (last : Option Row) (rs : List Row) (r : Row) (qs : List Row)
    → ltb processed limit ≡ true
    → (length (r ∷ first_rows n qs) ≡ suc n
        → scan_pages fuel
            (suc n)
            limit
            (processed + length (r ∷ first_rows n qs))
            (some (cursor (last_of r (first_rows n qs))))
            rs
          ≡ first_rows (k * suc n) (without n qs))
    → turn fuel n limit processed last rs (r ∷ qs) ≡ first_rows (suc n + k * suc n) (r ∷ qs)
turn_page fuel n limit processed k last rs r qs under later =
    ap (λ b. if b then (if ltb (length page) (suc n) then page else page ++ more) else []) under
    ∙ on_test (Bool-cases (ltb (length page) (suc n)))
  where
    page : List Row
    page = r ∷ first_rows n qs

    more : List Row
    more =
        scan_pages fuel (suc n) limit (processed + length page)
          (some (cursor (last_of r (first_rows n qs)))) rs

    on_test :
        (ltb (length page) (suc n) ≡ true) ⊎ (ltb (length page) (suc n) ≡ false)
        → (if ltb (length page) (suc n) then page else page ++ more)
          ≡ first_rows (suc n + k * suc n) (r ∷ qs)
    on_test (inl e) =
        ap (λ b. if b then page else page ++ more) e
        ∙ sym (first_rows-short (suc n) (k * suc n) (r ∷ qs) (ltb→lt (length page) (suc n) e))
    on_test (inr e) =
        let most = first_rows-le (suc n) (r ∷ qs) in
        let full : length page ≡ suc n = ground arith in
        ap (λ b. if b then page else page ++ more) e
        ∙ ap (λ x. page ++ x) (later full)
        ∙ sym (first_rows-add (suc n) (k * suc n) (r ∷ qs))

pages-first_rows :
    (fuel n limit processed k : ℕ) (last : Option Row) (rs left : List Row)
    → processed + k * suc n ≡ limit
    → k ≤ fuel
    → InOrder left
    → InMilliseconds left
    → Linked rs last left
    → scan_pages fuel (suc n) limit processed last rs ≡ first_rows (k * suc n) left
unfolding scan_pages
pages-first_rows zero n limit processed k last rs left total enough order whole l =
    let no_page : k ≡ 0 = omega arith in
    let no_rows : k * suc n ≡ 0 = ap (λ x. x * suc n) no_page ∙ omega arith in
    sym (ap (λ x. first_rows x left) no_rows)
pages-first_rows (suc fuel) n limit processed zero last rs left total enough order whole l =
    let over : ltb processed limit ≡ false = ground arith in
    let no_rows : 0 * suc n ≡ 0 = omega arith in ground (arith, over, no_rows)
pages-first_rows (suc fuel) n limit processed (suc k) last rs [] total enough order whole l =
    let mul : suc k * suc n ≡ suc n + k * suc n = omega arith in
    let under : ltb processed limit ≡ true = lt→ltb processed limit (omega arith) in
    let here = Linked-rest rs last [] l in
    let none_left = first_rows-nil (suc k * suc n) in
    let more = scan_pages fuel (suc n) limit (processed + 0) last rs in
    let step : scan_pages (suc fuel) (suc n) limit processed last rs ≡ [] =
      ap (λ x. turn fuel n limit processed last rs x) here
      ∙ ap (λ b. if b then (if ltb 0 (suc n) then [] else more) else []) under
      ∙ ap (λ b. if b then [] else more) (lt→ltb 0 (suc n) (omega arith)) in
    step ∙ sym none_left
pages-first_rows (suc fuel) n limit processed (suc k) last rs (r ∷ qs) total enough order whole l =
    let mul : suc k * suc n ≡ suc n + k * suc n = omega arith in
    let under : ltb processed limit ≡ true = lt→ltb processed limit (omega arith) in
    let here = Linked-rest rs last (r ∷ qs) l in
    let page = r ∷ first_rows n qs in
    ap (λ x. turn fuel n limit processed last rs x) here
    ∙ turn_page fuel n limit processed k last rs r qs under (λ full.
      pages-first_rows fuel n limit (processed + length page) k
        (some (cursor (last_of r (first_rows n qs)))) rs (without n qs) (omega arith) (omega arith)
        (InOrder-without n qs order.1) (InMilliseconds-without n qs whole.1)
        (subst (λ x. Linked rs (some x) (without n qs)) (sym (whole_last r n qs whole))
          (next_page-Linked rs last r n qs order l)))
    ∙ ap (λ x. first_rows x (r ∷ qs)) (sym mul)

-- A scan over a table that stands still, whose times are whole milliseconds (so that the cursor, a
-- `Date`, loses nothing of them), visits each of the rows that it selects once, in their order, up to
-- its limit: the pages together are the first rows, as many as the limit, which is a whole number of
-- pages, allows; and one round more than there are pages is fuel enough.
pub scan_pages-first_rows :
    (n k : ℕ) (rs : List Row)
    → InOrder rs
    → InMilliseconds rs
    → scan_pages (suc k) (suc n) (k * suc n) 0 none rs ≡ first_rows (k * suc n) rs
scan_pages-first_rows n k rs order whole =
    pages-first_rows (suc k) n (k * suc n) 0 k none rs rs (omega arith) (omega arith) order whole
      at_first
