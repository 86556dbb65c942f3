-- ===== src/Prelude/Upserts.antt =====
-- Tables in which the first row that meets a condition is replaced by its key.
use mathlib.Core.Path.{◌≡◌, refl}
use mathlib.Core.Bool.{Bool, true, false}
use mathlib.Core.Option.{some}
use mathlib.Core.List.{List, [], ◌∷◌, map}
use Prim.Native.Nat.{ℕ}
use native.Mathlib.Omega.{arith}
use runscope.Prelude.Rows.{first_row, save}
use runscope.Prelude.Keys.{key_in, Unique}

module _ {A : Type 0} (key : A → ℕ) (p : A → Bool) where
  first_row-key_in :
      (xs : List A) {x : A} → first_row p xs ≡ some x → key_in (key x) (map key xs) ≡ true
  unfolding first_row
  first_row-key_in [] h = ground arith
  first_row-key_in (y ∷ ys) {x = x} h = ground (arith, first_row-key_in ys {x = x})

  -- The row that a SELECT found is read again where it was replaced.
  pub first_row-save :
      (row : A) (xs : List A) {x : A}
      → Unique (map key xs)
      → first_row p xs ≡ some x
      → key row ≡ key x
      → p row ≡ true
      → first_row p (save key row xs) ≡ some row
  unfolding first_row save
  first_row-save row [] u h same meets = ground arith
  first_row-save row (y ∷ ys) {x = x} u h same meets =
      ground (arith, u, first_row-save row ys {x = x} u.1, first_row-key_in ys {x = x})

  -- A replacement that does not meet another condition, nor did the row before, is not seen by it.
  pub first_row-save-other :
      (q : A → Bool) (row : A) (xs : List A) {x : A}
      → Unique (map key xs)
      → first_row p xs ≡ some x
      → key row ≡ key x
      → q row ≡ false
      → q x ≡ false
      → first_row q (save key row xs) ≡ first_row q xs
  unfolding first_row save
  first_row-save-other q row [] u h same misses missed = refl
  first_row-save-other q row (y ∷ ys) {x = x} u h same misses missed =
      ground (arith, u, first_row-save-other q row ys {x = x} u.1, first_row-key_in ys {x = x})

  -- Without a change the table stays.
  pub save_found :
      (xs : List A) {x : A} → Unique (map key xs) → first_row p xs ≡ some x → save key x xs ≡ xs
  unfolding first_row save
  save_found [] u h = refl
  save_found (y ∷ ys) {x = x} u h =
      ground (arith, u, save_found ys {x = x} u.1, first_row-key_in ys {x = x})
