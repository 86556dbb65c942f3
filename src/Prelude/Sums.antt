-- ===== src/Prelude/Sums.antt =====
-- SQL aggregates over the rows that meet a condition.
use Prim.Native.Nat.{ℕ, ◌+◌, ◌≤◌}
use mathlib.Core.Path.{◌≡◌, refl}
use mathlib.Core.Bool.{Bool}
use mathlib.Core.Logic.{inl, inr}
use mathlib.Core.Option.{none, some}
use mathlib.Core.List.{List, [], ◌∷◌, map}
use native.Mathlib.Omega.{arith}
use runscope.Prelude.Tests.{if◌then◌else◌, Bool-cases}
use runscope.Prelude.Rows.{first_row, update_first}

module _ {A : Type 0} where
  unfoldable pub sum_where : (A → Bool) → (A → ℕ) → List A → ℕ
  sum_where p f [] = 0
  sum_where p f (x ∷ xs) = let rest = sum_where p f xs in if p x then f x + rest else rest

  abbrev pub count_where : (A → Bool) → List A → ℕ
  count_where p = sum_where p (λ _. 1)

  -- What the row adds to an aggregate.
  abbrev pub share : (A → Bool) → (A → ℕ) → A → ℕ
  share p f x = if p x then f x else 0

  -- An update of one row changes an aggregate by what that row adds.
  pub sum_where-update_first :
      (q : A → Bool) (g : A → A) (p : A → Bool) (f : A → ℕ) (xs : List A) {x : A}
      → first_row q xs ≡ some x
      → sum_where p f (update_first q g xs) + share p f x ≡ sum_where p f xs + share p f (g x)
  unfolding sum_where first_row update_first
  sum_where-update_first q g p f [] h = ground arith
  sum_where-update_first q g p f (y ∷ ys) {x = x} h = elim (Bool-cases (q y)) [
    | inl e ↦ rw e (ground arith)
    | inr e ↦ rw e (ground (arith, sum_where-update_first q g p f ys {x = x}))
  ]

  pub sum_where-none :
      (p : A → Bool) (f : A → ℕ) (xs : List A) → first_row p xs ≡ none → sum_where p f xs ≡ 0
  unfolding sum_where first_row
  sum_where-none p f [] h = refl
  sum_where-none p f (x ∷ xs) h = ground (arith, sum_where-none p f xs)

  pub count_where-some :
      (p : A → Bool) (xs : List A) {x : A} → first_row p xs ≡ some x → 1 ≤ count_where p xs
  unfolding sum_where first_row
  count_where-some p [] h = ground arith
  count_where-some p (y ∷ ys) {x = x} h = ground (arith, count_where-some p ys {x = x})

  -- A change of rows that keeps what each adds keeps the aggregate.
  pub sum_where-map :
      (g : A → A) (p : A → Bool) (f : A → ℕ) (xs : List A)
      → ((x : A) → share p f (g x) ≡ share p f x)
      → sum_where p f (map g xs) ≡ sum_where p f xs
  unfolding sum_where
  sum_where-map g p f [] same = refl
  sum_where-map g p f (x ∷ xs) same = ground (arith, same x, sum_where-map g p f xs same)
