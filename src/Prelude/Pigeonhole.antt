-- ===== src/Prelude/Pigeonhole.antt =====
-- As many distinct keys as a list has, all of them in it, are all that it has.
use Prim.Native.Nat.{ℕ, ◌+◌}
use mathlib.Core.Path.{◌≡◌, refl}
use mathlib.Core.Bool.{true, false}
use mathlib.Core.List.{List, [], ◌∷◌}
use mathlib.Core.Logic.{inl, inr}
use native.Mathlib.Omega.{arith}
use runscope.Prelude.Tests.{◌==◌, if◌then◌else◌, Bool-cases}
use runscope.Prelude.Tests.{length}
use runscope.Prelude.Keys.{key_in, Unique, All}

remove : ℕ → List ℕ → List ℕ
remove j [] = []
remove j (k ∷ ks) = if k == j then ks else k ∷ remove j ks

length-remove : (j : ℕ) (ks : List ℕ) → key_in j ks ≡ true → length ks ≡ length (remove j ks) + 1
unfolding remove
length-remove j [] h = ground arith
length-remove j (k ∷ ks) h = ground (arith, length-remove j ks)

key_in-remove : (i j : ℕ) (ks : List ℕ) → (i == j) ≡ false → key_in i (remove j ks) ≡ key_in i ks
unfolding remove
key_in-remove i j [] apart = refl
key_in-remove i j (k ∷ ks) apart = ground (arith, key_in-remove i j ks apart)

still_in :
    (x : ℕ) (xs ks : List ℕ)
    → key_in x xs ≡ false
    → All (λ y. key_in y ks ≡ true) xs
    → All (λ y. key_in y (remove x ks) ≡ true) xs
still_in x [] ks new h = tt
still_in x (y ∷ ys) ks new h =
    (ground (arith, key_in-remove y x ks, h.0), still_in x ys ks (ground arith) h.1)

pub All-covered :
    (xs ks : List ℕ) (j : ℕ)
    → Unique xs
    → All (λ x. key_in x ks ≡ true) xs
    → length xs ≡ length ks
    → key_in j ks ≡ true
    → key_in j xs ≡ true
All-covered [] [] j u h same there = there
All-covered [] (k ∷ ks) j u h same there = ground (arith, same)
All-covered (x ∷ xs) ks j u h same there = elim (Bool-cases (j == x)) [
  | inl e ↦ ground (arith, e)
  | inr e ↦
      let later =
        All-covered xs (remove x ks) j u.1 (still_in x xs ks u.0 h.1)
          (ground (arith, same, length-remove x ks h.0)) in
      ground (arith, later, key_in-remove j x ks e, there)
]

-- What holds of whatever is in a list of keys holds of each.
pub All-of_keys : (P : ℕ → Type 0) (ks : List ℕ) → ((j : ℕ) → key_in j ks ≡ true → P j) → All P ks
All-of_keys P [] f = tt
All-of_keys P (k ∷ ks) f = (f k (ground arith), All-of_keys P ks (λ j h. f j (ground (arith, h))))
