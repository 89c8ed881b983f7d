-- ===== src/Publishing/Reconcile/Pages.antt =====
-- The loop of scan 2 of `reconcile`: keyset pagination over the rows that the scan selects, in their
-- order, while the table stands still and the leader keeps its lease.
pub mod Keyset
pub mod Visits
use thread_pilot.Common.{
  ℕ, zero, suc, ◌+◌, ◌*◌, ◌/◌, ◌≤◌, ◌<◌, ◌≡◌, refl, sym, ap, ◌∙◌, Bool, true, false, ◌&&◌, ◌||◌,
  Option, none, some, List, [], ◌∷◌, ◌++◌, ltb, ltb→lt, lt→ltb, ◌==◌, arith, All, length,
  if◌then◌else◌, Bool-cases, ◌⊎◌, inl, inr,
}

-- What a row is ordered by: its time in microseconds, as the database keeps it, and its identifier.
pub record Row : Type 0 where
  pub time : ℕ
  pub id : ℕ

-- `time > last OR (time = last AND id > last_id)`, for the last row.
abbrev pub comes_after : Row → Row → Bool
comes_after last r = ltb last.time r.time || (last.time == r.time && ltb last.id r.id)

abbrev pub rows_after : Row → List Row → List Row
rows_after last [] = []
rows_after last (r ∷ rs) = if comes_after last r then r ∷ rows_after last rs else rows_after last rs

abbrev pub rest_after : Option Row → List Row → List Row
rest_after none rs = rs
rest_after (some last) rs = rows_after last rs

abbrev pub first_rows : ℕ → List Row → List Row
first_rows zero rs = []
first_rows (suc n) [] = []
first_rows (suc n) (r ∷ rs) = r ∷ first_rows n rs

abbrev pub last_of : Row → List Row → Row
last_of r [] = r
last_of r (q ∷ qs) = last_of q qs

-- The cursor is made from a `Date`, which keeps the milliseconds.
abbrev pub to_date : ℕ → ℕ
to_date time = time / 1000 * 1000

abbrev pub cursor : Row → Row
cursor r = record r { time = to_date r.time }

abbrev pub last_row : Option Row → List Row → Option Row
last_row last [] = last
last_row last (r ∷ rs) = some (cursor (last_of r rs))

-- The rows that are visited, page by page; `limit` is the MAX of the scan.
unfoldable pub scan_pages : ℕ → ℕ → ℕ → ℕ → Option Row → List Row → List Row
scan_pages zero size limit processed last rs = []
scan_pages (suc fuel) size limit processed last rs =
    let page = first_rows size (rest_after last rs) in
    let more = scan_pages fuel size limit (processed + length page) (last_row last page) rs in
    if ltb processed limit then (if ltb (length page) size then page else page ++ more) else []

-- Strictly in order.
abbrev pub InOrder : List Row → Type 0
InOrder [] = Unit
InOrder (r ∷ rs) = All (λ x. comes_after r x ≡ true) rs × InOrder rs

-- The times are whole milliseconds.
abbrev pub InMilliseconds : List Row → Type 0
InMilliseconds rs = All (λ r. to_date r.time ≡ r.time) rs

abbrev pub without : ℕ → List Row → List Row
without zero rs = rs
without (suc n) [] = []
without (suc n) (r ∷ rs) = without n rs
