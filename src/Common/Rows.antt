-- ===== src/Common/Rows.antt =====
-- The rows of a table as a list: what the queries and the updates of the database do.
use Prim.Native.Nat.{ℕ, suc}
use thread_pilot.Common.Lists.{any}
use thread_pilot.Common.Tests.{ltb, if◌then◌else◌}
use mathlib.Core.Path.{◌≡◌, refl}
use mathlib.Core.Bool.{Bool, true}
use mathlib.Core.Option
use mathlib.Core.Option.{Option, none, some}
use native.Mathlib.Omega.{arith}
use mathlib.Core.List.{List, [], ◌∷◌, ◌++◌}

-- The first row that passes a test, and the change of every row that does.
abbrev pub find_first {ℓ} : {A : Type ℓ} → (A → Bool) → List A → Option A
find_first p [] = none
find_first p (x ∷ xs) = if p x then some x else find_first p xs

abbrev pub update_all {ℓ} : {A : Type ℓ} → (A → Bool) → (A → A) → List A → List A
update_all p f [] = []
update_all p f (x ∷ xs) = (if p x then f x else x) ∷ update_all p f xs

abbrev pub count_if {ℓ} : {A : Type ℓ} → (A → Bool) → List A → ℕ
count_if p [] = 0
count_if p (x ∷ xs) = if p x then suc (count_if p xs) else count_if p xs

-- The row with the greatest `created_at`, the first of those.
abbrev pub newer {ℓ} : {A : Type ℓ} → (A → ℕ) → A → Option A → A
newer at x none = x
newer at x (some y) = if ltb (at x) (at y) then y else x

abbrev pub latest {ℓ} : {A : Type ℓ} → (A → ℕ) → (A → Bool) → List A → Option A
latest at p [] = none
latest at p (x ∷ xs) = let rest = latest at p xs in if p x then some (newer at x rest) else rest

-- An update that keeps what a query tests changes the row that the query finds, and no other.
pub find_first-update_all {ℓ} :
    {A : Type ℓ} (p q : A → Bool) (f : A → A) (xs : List A)
    → ((x : A) → p (f x) ≡ p x)
    → find_first p (update_all q f xs) ≡ Option.map (λ x. if q x then f x else x) (find_first p xs)
find_first-update_all p q f [] keeps = refl
find_first-update_all p q f (x ∷ xs) keeps =
    let rest = find_first-update_all p q f xs keeps in ground (arith, keeps x, rest)

-- A row that a query finds passes its test.
pub found_passes {ℓ} :
    {A : Type ℓ} (p : A → Bool) (xs : List A) (x : A) → find_first p xs ≡ some x → p x ≡ true
found_passes p [] x h = cc
found_passes p (y ∷ ys) x h = let rest = found_passes p ys x in ground (arith, rest)

-- A query that finds a row finds one.
pub find_first-any {ℓ} :
    {A : Type ℓ} (p q : A → Bool) (xs : List A) (x : A)
    → find_first p xs ≡ some x
    → q x ≡ true
    → any q xs ≡ true
find_first-any p q [] x h t = cc
find_first-any p q (y ∷ ys) x h t = let rest = find_first-any p q ys x in ground (arith, rest)

-- A row at the end is found if none is before it, and hides no row.
pub find_first-append_none {ℓ} :
    {A : Type ℓ} (p : A → Bool) (xs : List A) (y : A)
    → find_first p xs ≡ none
    → p y ≡ true
    → find_first p (xs ++ y ∷ []) ≡ some y
find_first-append_none p [] y h t = ground (arith, t)
find_first-append_none p (x ∷ xs) y h t =
    let rest = find_first-append_none p xs y in ground (arith, rest)

pub find_first-append_some {ℓ} :
    {A : Type ℓ} (p : A → Bool) (xs : List A) (y x : A)
    → find_first p xs ≡ some x
    → find_first p (xs ++ y ∷ []) ≡ some x
find_first-append_some p [] y x h = cc
find_first-append_some p (z ∷ zs) y x h =
    let rest = find_first-append_some p zs y x in ground (arith, rest)

-- The rows of two tables, one by one.
pub data RowByRow {ℓ} {A : Type ℓ} (R : A → A → Type ℓ) : List A → List A → Type ℓ where
  no_rows : RowByRow R [] []
  a_row : {x y : A} {xs ys : List A} → R x y → RowByRow R xs ys → RowByRow R (x ∷ xs) (y ∷ ys)
