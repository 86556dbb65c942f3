-- ===== src/Prelude/Keys.antt =====
-- Primary keys: the keys of a table, their uniqueness, and what it says of the rows.
use Prim.Native.Nat.{ℕ, zero, suc}
use mathlib.Core.Path.{◌≡◌, refl, sym, ap, ◌∙◌}
use mathlib.Core.Logic.{inl, inr}
use mathlib.Core.Bool.{Bool, true, false, ◌||◌}
use mathlib.Core.Option.{none, some, some-injective}
use mathlib.Core.List.{List, [], ◌∷◌, map}
use native.Mathlib.Omega.{arith}
use runscope.Prelude.Tests.{◌==◌, Bool-cases, ==→≡, ==_refl}
use runscope.Prelude.Rows.{find, save, where_rows}
use runscope.Prelude.Order.{place, order_by, take}

abbrev pub key_in : ℕ → List ℕ → Bool
key_in j [] = false
key_in j (k ∷ ks) = k == j || key_in j ks

-- The primary key constraint.
abbrev pub Unique : List ℕ → Type 0
Unique [] = Unit
Unique (k ∷ ks) = (key_in k ks ≡ false) × Unique ks

abbrev pub All : {A : Type 0} → (A → Type 0) → List A → Type 0
All P [] = Unit
All P (x ∷ xs) = P x × All P xs

pub All-map :
    {A : Type 0} (P Q : A → Type 0) (xs : List A) → ((x : A) → P x → Q x) → All P xs → All Q xs
All-map P Q [] f h = tt
All-map P Q (x ∷ xs) f h = (f x h.0, All-map P Q xs f h.1)

module _ {A : Type 0} (key : A → ℕ) where
  pub keys-save : (row : A) (xs : List A) → map key (save key row xs) ≡ map key xs
  unfolding save
  keys-save row [] = refl
  keys-save row (x ∷ xs) = ground (arith, keys-save row xs)

  pub keys-map :
      (g : A → A) (xs : List A) → ((x : A) → key (g x) ≡ key x) → map key (map g xs) ≡ map key xs
  keys-map g [] same = refl
  keys-map g (x ∷ xs) same = ground (arith, same x, keys-map g xs same)

  pub find-absent : (j : ℕ) (xs : List A) → key_in j (map key xs) ≡ false → find key j xs ≡ none
  unfolding find
  find-absent j [] h = refl
  find-absent j (x ∷ xs) h = ground (arith, find-absent j xs)

  pub key_in-found :
      (j : ℕ) (xs : List A) {x : A} → find key j xs ≡ some x → key_in j (map key xs) ≡ true
  unfolding find
  key_in-found j [] h = ground arith
  key_in-found j (y ∷ ys) {x = x} h = ground (arith, key_in-found j ys {x = x})

  -- A row found in a table is found behind a new row with another key.
  found_behind :
      (y x : A) (ys : List A)
      → key_in (key y) (map key ys) ≡ false
      → find key (key x) ys ≡ some x
      → find key (key x) (y ∷ ys) ≡ some x
  unfolding find
  found_behind y x ys fresh e = elim (Bool-cases (key y == key x)) [
    | inl same ↦ cc (
      fresh,
      ap (λ k. key_in k (map key ys)) (==→≡ (key y) (key x) same),
      key_in-found (key x) ys e,
    )
    | inr other ↦ rw other e
  ]

  -- In a table with unique keys each selected row is the row of its key.
  pub where_rows-found :
      (p : A → Bool) (xs : List A)
      → Unique (map key xs)
      → All (λ x. (find key (key x) xs ≡ some x) × (p x ≡ true)) (where_rows p xs)
  unfolding find where_rows
  where_rows-found p [] u = tt
  where_rows-found p (x ∷ xs) u =
      let rest =
        All-map (λ y. (find key (key y) xs ≡ some y) × (p y ≡ true))
          (λ y. (find key (key y) (x ∷ xs) ≡ some y) × (p y ≡ true)) (where_rows p xs)
          (λ y h. (found_behind x y xs u.0 h.0, h.1)) (where_rows-found p xs u.1) in
      elim (Bool-cases (p x)) [ inl e ↦ rw e ((rw (==_refl (key x)), e), rest) | inr e ↦ rw e rest ]

  -- The row of a key is not among selected rows where it does not meet the condition.
  pub not_selected :
      (p : A → Bool) (xs ys : List A) (j : ℕ) {x : A}
      → find key j xs ≡ some x
      → p x ≡ false
      → All (λ y. (find key (key y) xs ≡ some y) × (p y ≡ true)) ys
      → key_in j (map key ys) ≡ false
  not_selected p xs [] j found fails h = refl
  not_selected p xs (y ∷ ys) j {x = x} found fails h = elim (Bool-cases (key y == j)) [
    | inl e ↦
        let same : y ≡ x =
          some-injective y x (sym h.0.0 ∙ ap (λ k. find key k xs) (==→≡ (key y) j e) ∙ found) in
        cc (h.0.1, fails, ap p same)
    | inr e ↦ rw e (not_selected p xs ys j found fails h.1)
  ]

  key_in-where_rows :
      (p : A → Bool) (j : ℕ) (xs : List A)
      → key_in j (map key xs) ≡ false
      → key_in j (map key (where_rows p xs)) ≡ false
  unfolding where_rows
  key_in-where_rows p j [] h = refl
  key_in-where_rows p j (x ∷ xs) h = ground (arith, key_in-where_rows p j xs)

  pub Unique-where_rows :
      (p : A → Bool) (xs : List A) → Unique (map key xs) → Unique (map key (where_rows p xs))
  unfolding where_rows
  Unique-where_rows p [] u = tt
  Unique-where_rows p (x ∷ xs) u = elim (Bool-cases (p x)) [
    | inl e ↦ rw e (key_in-where_rows p (key x) xs u.0, Unique-where_rows p xs u.1)
    | inr e ↦ rw e (Unique-where_rows p xs u.1)
  ]

  -- Sorting and limiting keep the keys unique.
  key_in-place :
      (before : A → A → Bool) (j : ℕ) (x : A) (xs : List A)
      → key_in j (map key (place before x xs)) ≡ key_in j (map key (x ∷ xs))
  unfolding place
  key_in-place before j x [] = refl
  key_in-place before j x (y ∷ ys) = ground (arith, key_in-place before j x ys)

  Unique-place :
      (before : A → A → Bool) (x : A) (xs : List A)
      → Unique (map key (x ∷ xs))
      → Unique (map key (place before x xs))
  unfolding place
  Unique-place before x [] u = u
  Unique-place before x (y ∷ ys) u = elim (Bool-cases (before x y)) [
    | inl e ↦ rw e u
    | inr e ↦ rw e (
      key_in-place before (key y) x ys ∙ ground (arith, u.0, u.1.0),
      Unique-place before x ys (ground (arith, u.0), u.1.1),
    )
  ]

  pub key_in-order_by :
      (before : A → A → Bool) (j : ℕ) (xs : List A)
      → key_in j (map key (order_by before xs)) ≡ key_in j (map key xs)
  unfolding order_by
  key_in-order_by before j [] = refl
  key_in-order_by before j (x ∷ xs) =
      key_in-place before j x (order_by before xs)
      ∙ ap (λ b. key x == j || b) (key_in-order_by before j xs)

  pub Unique-order_by :
      (before : A → A → Bool) (xs : List A)
      → Unique (map key xs)
      → Unique (map key (order_by before xs))
  unfolding order_by
  Unique-order_by before [] u = tt
  Unique-order_by before (x ∷ xs) u =
      Unique-place before x (order_by before xs)
        (key_in-order_by before (key x) xs ∙ u.0, Unique-order_by before xs u.1)

  key_in-take :
      (n j : ℕ) (xs : List A)
      → key_in j (map key xs) ≡ false
      → key_in j (map key (take n xs)) ≡ false
  unfolding take
  key_in-take zero j xs h = refl
  key_in-take (suc n) j [] h = refl
  key_in-take (suc n) j (x ∷ xs) h = ground (arith, key_in-take n j xs)

  pub Unique-take : (n : ℕ) (xs : List A) → Unique (map key xs) → Unique (map key (take n xs))
  unfolding take
  Unique-take zero xs u = tt
  Unique-take (suc n) [] u = tt
  Unique-take (suc n) (x ∷ xs) u = (key_in-take n (key x) xs u.0, Unique-take n xs u.1)

-- Sorting and limiting keep what holds of every row.
pub All-place :
    {A : Type 0} (P : A → Type 0) (before : A → A → Bool) (x : A) (xs : List A)
    → P x
    → All P xs
    → All P (place before x xs)
unfolding place
All-place P before x [] px h = (px, h)
All-place P before x (y ∷ ys) px h = elim (Bool-cases (before x y)) [
  | inl e ↦ rw e (px, h)
  | inr e ↦ rw e (h.0, All-place P before x ys px h.1)
]

pub All-order_by :
    {A : Type 0} (P : A → Type 0) (before : A → A → Bool) (xs : List A)
    → All P xs
    → All P (order_by before xs)
unfolding order_by
All-order_by P before [] h = h
All-order_by P before (x ∷ xs) h =
    All-place P before x (order_by before xs) h.0 (All-order_by P before xs h.1)

pub All-take : {A : Type 0} (P : A → Type 0) (n : ℕ) (xs : List A) → All P xs → All P (take n xs)
unfolding take
All-take P zero xs h = tt
All-take P (suc n) [] h = tt
All-take P (suc n) (x ∷ xs) h = (h.0, All-take P n xs h.1)
