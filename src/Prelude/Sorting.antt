-- ===== src/Prelude/Sorting.antt =====
-- What ORDER BY returns: the rows, each after those that come before it.
use Prim.Native.Nat.{ℕ, zero, suc}
use mathlib.Core.Path.{◌≡◌, refl, subst, ap, ◌∙◌}
use mathlib.Core.Logic.{◌≢◌, inl, inr}
use mathlib.Core.Bool.{Bool, true, false}
use mathlib.Core.Option.{none, some, some-injective}
use mathlib.Core.List.{List, [], ◌∷◌, map}
use native.Mathlib.Omega.{arith}
use runscope.Prelude.Tests.{if◌then◌else◌, Bool-cases, length}
use runscope.Prelude.Rows.{where_rows, find}
use runscope.Prelude.Order.{place, order_by, take, head}
use runscope.Prelude.Keys.{All, All-map, All-take, Unique, where_rows-found}

-- Each row comes before all that follow it.
abbrev pub Sorted : {A : Type 0} → (A → A → Bool) → List A → Type 0
Sorted before [] = Unit
Sorted before (x ∷ xs) = All (λ y. before x y ≡ true) xs × Sorted before xs

-- A test that orders all rows.
pub record IsOrder {A : Type 0} (before : A → A → Bool) : Type 0 where
  pub total : (a b : A) → before a b ≡ false → before b a ≡ true
  pub transitive : (a b c : A) → before a b ≡ true → before b c ≡ true → before a c ≡ true

module _ {A : Type 0} (before : A → A → Bool) (order : IsOrder before) where
  All-placed : (P : A → Type 0) (x : A) (xs : List A) → P x → All P xs → All P (place before x xs)
  unfolding place
  All-placed P x [] p h = (p, tt)
  All-placed P x (y ∷ ys) p h = elim (Bool-cases (before x y)) [
    | inl e ↦ rw e (p, h)
    | inr e ↦ rw e (h.0, All-placed P x ys p h.1)
  ]

  place-Sorted : (x : A) (xs : List A) → Sorted before xs → Sorted before (place before x xs)
  unfolding place
  place-Sorted x [] s = (tt, tt)
  place-Sorted x (y ∷ ys) s = elim (Bool-cases (before x y)) [
    | inl e ↦ rw e ((e, All-map _ _ ys (λ z h. order.transitive x y z e h) s.0), s)
    | inr e ↦
        rw e
          (All-placed (λ z. before y z ≡ true) x ys (order.total x y e) s.0, place-Sorted x ys s.1)
  ]

  pub order_by-Sorted : (xs : List A) → Sorted before (order_by before xs)
  unfolding order_by
  order_by-Sorted [] = tt
  order_by-Sorted (x ∷ xs) = place-Sorted x (order_by before xs) (order_by-Sorted xs)

  pub take-Sorted : (n : ℕ) (xs : List A) → Sorted before xs → Sorted before (take n xs)
  unfolding take
  take-Sorted zero xs s = tt
  take-Sorted (suc n) [] s = tt
  take-Sorted (suc n) (x ∷ xs) s = (All-take _ n xs s.0, take-Sorted n xs s.1)

  placed-All : (P : A → Type 0) (x : A) (xs : List A) → All P (place before x xs) → P x × All P xs
  unfolding place
  placed-All P x [] h = (h.0, tt)
  placed-All P x (y ∷ ys) h = opened (before x y) (λ k. placed-All P x ys k) h
    where
      opened :
          (b : Bool)
          → (All P (place before x ys) → P x × All P ys)
          → All P (if b then x ∷ y ∷ ys else y ∷ place before x ys)
          → P x × All P (y ∷ ys)
      opened true rest k = k
      opened false rest k = let (p, others) = rest k.1 in (p, (k.0, others))

  ordered-All : (P : A → Type 0) (xs : List A) → All P (order_by before xs) → All P xs
  unfolding order_by
  ordered-All P [] h = tt
  ordered-All P (x ∷ xs) h =
      let (p, rest) = placed-All P x (order_by before xs) h in (p, ordered-All P xs rest)

  reflexive : (x : A) → before x x ≡ true
  reflexive x = elim (Bool-cases (before x x)) [ inl e ↦ e | inr e ↦ order.total x x e ]

  -- The first row of the sorted table comes before every row.
  pub head-least :
      (xs : List A) {x : A} → head (order_by before xs) ≡ some x → All (λ y. before x y ≡ true) xs
  head-least xs {x = x} h =
      ordered-All (λ y. before x y ≡ true) xs (first (order_by before xs) h (order_by-Sorted xs))
    where
      first : (ys : List A) → head ys ≡ some x → Sorted before ys → All (λ y. before x y ≡ true) ys
      first [] e s = cc
      first (y ∷ ys) e s =
          subst (λ z. All (λ y. before z y ≡ true) (y ∷ ys)) (some-injective y x e)
            (reflexive y, s.0)

placed-not_empty :
    {A : Type 0} (before : A → A → Bool) (x : A) (xs : List A) → head (place before x xs) ≢ none
unfolding place
placed-not_empty before x [] h = cc
placed-not_empty before x (y ∷ ys) h = ground arith

-- There is no first row only in an empty table.
pub head-none :
    {A : Type 0} (before : A → A → Bool) (xs : List A) → head (order_by before xs) ≡ none → xs ≡ []
unfolding order_by
head-none before [] h = refl
head-none before (x ∷ xs) h = absurd (placed-not_empty before x (order_by before xs) h)

pub Sorted-map :
    {A : Type 0} (p q : A → A → Bool) (xs : List A)
    → ((a b : A) → p a b ≡ true → q a b ≡ true)
    → Sorted p xs
    → Sorted q xs
Sorted-map p q [] f s = tt
Sorted-map p q (x ∷ xs) f s = (All-map _ _ xs (f x) s.0, Sorted-map p q xs f s.1)

-- What holds of the selected rows, as a statement on the table.
pub where_rows-All :
    {A : Type 0} (p : A → Bool) (P : A → Type 0) (xs : List A)
    → All P (where_rows p xs)
    → All (λ x. p x ≡ true → P x) xs
unfolding where_rows
where_rows-All p P [] h = tt
where_rows-All p P (x ∷ xs) h = selected (p x) refl (λ k. where_rows-All p P xs k) h
  where
    selected :
        (b : Bool)
        → p x ≡ b
        → (All P (where_rows p xs) → All (λ x. p x ≡ true → P x) xs)
        → All P (if b then x ∷ where_rows p xs else where_rows p xs)
        → All (λ x. p x ≡ true → P x) (x ∷ xs)
    selected true e rest k = ((λ _. k.0), rest k.1)
    selected false e rest k = ((λ q. cc), rest k)

pub where_rows-none :
    {A : Type 0} (p : A → Bool) (xs : List A) → where_rows p xs ≡ [] → All (λ x. p x ≡ false) xs
unfolding where_rows
where_rows-none p [] h = tt
where_rows-none p (x ∷ xs) h = (ground arith, where_rows-none p xs (ground arith))

module _ {A : Type 0} where
  length-place :
      (before : A → A → Bool) (x : A) (xs : List A) → length (place before x xs) ≡ suc (length xs)
  unfolding place
  length-place before x [] = refl
  length-place before x (y ∷ ys) = ground (arith, length-place before x ys)

  pub length-order_by :
      (before : A → A → Bool) (xs : List A) → length (order_by before xs) ≡ length xs
  unfolding order_by
  length-order_by before [] = refl
  length-order_by before (x ∷ xs) =
      length-place before x (order_by before xs) ∙ ap suc (length-order_by before xs)

  -- The selected rows meet the condition.
  pub selected-All : (p : A → Bool) (xs : List A) → All (λ x. p x ≡ true) (where_rows p xs)
  unfolding where_rows
  selected-All p [] = tt
  selected-All p (x ∷ xs) = elim (Bool-cases (p x)) [
    | inl e ↦ rw e (e, selected-All p xs)
    | inr e ↦ rw e (selected-All p xs)
  ]

module _ {A B : Type 0} (f : A → B) where
  pub length-map : (xs : List A) → length (map f xs) ≡ length xs
  length-map [] = refl
  length-map (x ∷ xs) = ap suc (length-map xs)

  pub All-mapped : (P : B → Type 0) (xs : List A) → All (λ x. P (f x)) xs → All P (map f xs)
  All-mapped P [] h = tt
  All-mapped P (x ∷ xs) h = (h.0, All-mapped P xs h.1)

  pub Sorted-mapped :
      (before : B → B → Bool) (xs : List A)
      → Sorted (λ a b. before (f a) (f b)) xs
      → Sorted before (map f xs)
  Sorted-mapped before [] s = tt
  Sorted-mapped before (x ∷ xs) s =
      (All-mapped (λ y. before (f x) y ≡ true) xs s.0, Sorted-mapped before xs s.1)

-- In a table with unique keys each row is the row of its key.
pub rows-found :
    {A : Type 0} (key : A → ℕ) (xs : List A)
    → Unique (map key xs)
    → All (λ x. find key (key x) xs ≡ some x) xs
rows-found key xs u =
    All-map _ _ xs (λ x k. k refl)
      (where_rows-All (λ _. true) (λ x. find key (key x) xs ≡ some x) xs
        (All-map _ _ (where_rows (λ _. true) xs) (λ x k. k.0)
          (where_rows-found key (λ _. true) xs u)))
