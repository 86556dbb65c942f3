-- ===== src/Prelude/Rows.antt =====
-- Database tables as lists of rows. A row is read by its primary key, or by a condition; an
-- INSERT puts the row in front, and an UPDATE replaces the row.
use Prim.Native.Nat.{ℕ}
use mathlib.Core.Path.{◌≡◌, refl}
use mathlib.Core.Bool.{Bool, true}
use mathlib.Core.Option
use mathlib.Core.Option.{Option, none, some}
use mathlib.Core.List.{List, [], ◌∷◌, map}
use native.Mathlib.Omega.{arith}
use runscope.Prelude.Tests.{◌==◌, if◌then◌else◌}

-- What a read returns after the UPDATE.
abbrev pub replaced : {A : Type 0} → A → Option A → Option A
replaced row none = none
replaced row (some _) = some row

module _ {A : Type 0} (key : A → ℕ) where
  -- session.get(Table, j)
  unfoldable pub find : ℕ → List A → Option A
  find j [] = none
  find j (x ∷ xs) = if key x == j then some x else find j xs

  -- the UPDATE of the row with the key of `row`
  unfoldable pub save : A → List A → List A
  save row [] = []
  save row (x ∷ xs) = if key x == key row then row ∷ xs else x ∷ save row xs

  pub find-save :
      (j : ℕ) (row : A) (xs : List A)
      → find j (save row xs) ≡ (if key row == j then replaced row (find j xs) else find j xs)
  unfolding find save
  find-save j row [] = ground arith
  find-save j row (x ∷ xs) = ground (arith, find-save j row xs)

  pub find-save-none :
      (j : ℕ) (row : A) (xs : List A) → find j xs ≡ none → find j (save row xs) ≡ none
  find-save-none j row xs h = ground (arith, find-save j row xs)

  pub find-key : (j : ℕ) (xs : List A) {x : A} → find j xs ≡ some x → key x ≡ j
  unfolding find
  find-key j [] h = ground arith
  find-key j (y ∷ ys) {x = x} h = ground (arith, find-key j ys {x = x})

  -- A change of every row that keeps the keys.
  pub find-map :
      (j : ℕ) (g : A → A) (xs : List A)
      → ((x : A) → key (g x) ≡ key x)
      → find j (map g xs) ≡ Option.map g (find j xs)
  unfolding find
  find-map j g [] same = refl
  find-map j g (x ∷ xs) same = ground (arith, same x, find-map j g xs same)

module _ {A : Type 0} (p : A → Bool) where
  -- the rows of a SELECT with a condition
  unfoldable pub where_rows : List A → List A
  where_rows [] = []
  where_rows (x ∷ xs) = let rest = where_rows xs in if p x then x ∷ rest else rest

  -- the first of them
  unfoldable pub first_row : List A → Option A
  first_row [] = none
  first_row (x ∷ xs) = if p x then some x else first_row xs

  -- an assignment to the object that `first_row` returned
  unfoldable pub update_first : (A → A) → List A → List A
  update_first f [] = []
  update_first f (x ∷ xs) = if p x then f x ∷ xs else x ∷ update_first f xs

  pub first_row-holds : (xs : List A) {x : A} → first_row xs ≡ some x → p x ≡ true
  unfolding first_row
  first_row-holds [] h = ground arith
  first_row-holds (y ∷ ys) {x = x} h = ground (arith, first_row-holds ys {x = x})

  pub update_first-none : (f : A → A) (xs : List A) → first_row xs ≡ none → update_first f xs ≡ xs
  unfolding first_row update_first
  update_first-none f [] h = refl
  update_first-none f (x ∷ xs) h = ground (arith, update_first-none f xs)
