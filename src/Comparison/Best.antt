-- ===== src/Comparison/Best.antt =====
-- api/runs.py: the best run of a metric.
use native.Mathlib.Nat.{mul-le-mul_right, mul-lt-mul_of_pos_right, lt_of_mul-lt-mul_right}
use runscope.Models.Integers.{pos_part, neg_part}
use runscope.Prelude.{
  ℕ, ◌+◌, ◌*◌, ◌≤◌, ◌<◌, ◌≡◌, refl, sym, subst, ◌∙◌, List, [], ◌∷◌, true, false, All, arith, ◌⊎◌,
  inl, inr, Bool-cases,
}
use runscope.Models.{Uuid, Fraction}
use runscope.Comparison.{fraction_lt, greatest}

-- Fractions with positive denominators compare transitively; a numerator is a difference.
below_both :
    (pa na da pb nb db pc nc dc : ℕ)
    → 1 ≤ da
    → 1 ≤ db
    → 1 ≤ dc
    → pa * db + nb * da ≤ pb * da + na * db
    → pb * dc + nc * db < pc * db + nb * dc
    → pa * dc + nc * da < pc * da + na * dc
below_both pa na da pb nb db pc nc dc p q r h k =
    let first : (pa * db + nb * da) * dc ≤ (pb * da + na * db) * dc = mul-le-mul_right dc h in
    let second : (pb * dc + nc * db) * da < (pc * db + nb * dc) * da =
      mul-lt-mul_of_pos_right k p in
    lt_of_mul-lt-mul_right db (omega (arith, first, second))

abbrev pub Positive : Fraction → Type 0
Positive f = 1 ≤ f.denominator

fraction_trans :
    (a b c : Fraction)
    → Positive a
    → Positive b
    → Positive c
    → fraction_lt b a ≡ false
    → fraction_lt b c ≡ true
    → fraction_lt a c ≡ true
fraction_trans a b c p q r h k = ground (
  arith,
  below_both (pos_part a.numerator) (neg_part a.numerator) a.denominator (pos_part b.numerator)
      (neg_part b.numerator) b.denominator (pos_part c.numerator) (neg_part c.numerator)
      c.denominator p q r,
)

fraction_irreflexive : (a : Fraction) → fraction_lt a a ≡ false
fraction_irreflexive a = ground arith

abbrev pub Among : {A : Type 0} → A → List A → Type 0
Among y [] = ⊥
Among y (x ∷ xs) = (y ≡ x) ⊎ Among y xs

-- No other value is greater.
abbrev pub Dominates : Fraction → List (Uuid × Fraction) → Type 0
Dominates v = All λ s. fraction_lt v s.1 ≡ false

abbrev pub AllPositive : List (Uuid × Fraction) → Type 0
AllPositive = All λ s. Positive s.1

greatest-replaced :
    (best s : Uuid × Fraction) (rest : List (Uuid × Fraction))
    → fraction_lt best.1 s.1 ≡ true
    → greatest best (s ∷ rest) ≡ greatest s rest
unfolding greatest
greatest-replaced best s rest e = rw e refl

greatest-kept :
    (best s : Uuid × Fraction) (rest : List (Uuid × Fraction))
    → fraction_lt best.1 s.1 ≡ false
    → greatest best (s ∷ rest) ≡ greatest best rest
unfolding greatest
greatest-kept best s rest e = rw e refl

greatest-Positive :
    (best : Uuid × Fraction) (rest : List (Uuid × Fraction))
    → Positive best.1
    → AllPositive rest
    → Positive (greatest best rest).1
unfolding greatest
greatest-Positive best [] p h = p
greatest-Positive best (s ∷ rest) p h = elim (Bool-cases (fraction_lt best.1 s.1)) [
  | inl e ↦ rw e (greatest-Positive s rest h.0 h.1)
  | inr e ↦ rw e (greatest-Positive best rest p h.1)
]

pub greatest-Among :
    (best : Uuid × Fraction) (rest : List (Uuid × Fraction))
    → Among (greatest best rest) (best ∷ rest)
unfolding greatest
greatest-Among best [] = inl refl
greatest-Among best (s ∷ rest) = elim (Bool-cases (fraction_lt best.1 s.1)) [
  | inl e ↦
      subst (λ g. Among g (best ∷ s ∷ rest)) (sym (greatest-replaced best s rest e))
        (inr (greatest-Among s rest))
  | inr e ↦
      subst (λ g. Among g (best ∷ s ∷ rest)) (sym (greatest-kept best s rest e))
        (elim (greatest-Among best rest) [ inl same ↦ inl same | inr among ↦ inr (inr among) ])
]

-- What is not below `g` and below `s` puts `g` above.
not_below :
    (g b s : Fraction)
    → Positive g
    → Positive b
    → Positive s
    → fraction_lt g b ≡ false
    → fraction_lt b s ≡ false
    → fraction_lt g s ≡ false
not_below g b s p q r h k = elim (Bool-cases (fraction_lt g s)) [
  | inl e ↦ cc (sym k ∙ fraction_trans b g s q p r h e)
  | inr e ↦ e
]

not_above :
    (g b s : Fraction)
    → Positive g
    → Positive b
    → Positive s
    → fraction_lt g s ≡ false
    → fraction_lt b s ≡ true
    → fraction_lt g b ≡ false
not_above g b s p q r h k = elim (Bool-cases (fraction_lt g b)) [
  | inl e ↦ cc (sym h ∙ fraction_trans g b s p q r (asymmetric g b e) k)
  | inr e ↦ e
]
  where
    asymmetric : (a c : Fraction) → fraction_lt a c ≡ true → fraction_lt c a ≡ false
    asymmetric a c e = ground arith

pub greatest-Dominates :
    (best : Uuid × Fraction) (rest : List (Uuid × Fraction))
    → Positive best.1
    → AllPositive rest
    → Dominates (greatest best rest).1 (best ∷ rest)
unfolding greatest
greatest-Dominates best [] p h = (fraction_irreflexive best.1, tt)
greatest-Dominates best (s ∷ rest) p h = elim (Bool-cases (fraction_lt best.1 s.1)) [
  | inl e ↦
      let d = greatest-Dominates s rest h.0 h.1 in
      let g = greatest-Positive s rest h.0 h.1 in
      subst (λ g. Dominates g.1 (best ∷ s ∷ rest)) (sym (greatest-replaced best s rest e))
        (not_above (greatest s rest).1 best.1 s.1 g p h.0 d.0 e, d)
  | inr e ↦
      let d = greatest-Dominates best rest p h.1 in
      let g = greatest-Positive best rest p h.1 in
      subst (λ g. Dominates g.1 (best ∷ s ∷ rest)) (sym (greatest-kept best s rest e))
        (d.0, (not_below (greatest best rest).1 best.1 s.1 g p h.0 d.0 e, d.1))
]
