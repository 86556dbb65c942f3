-- ===== src/Storage/Waits.antt =====
-- storage.py: between which calls `_retry` waits, and how long.
use runscope.Prelude.{
  ℕ, zero, suc, ◌+◌, ◌-◌, ◌*◌, ◌^◌, ◌≤◌, ◌<◌, ◌≡◌, refl, ◌∙◌, sym, ap, subst, ◌⊎◌, List, [], ◌∷◌,
  Option, none, some, true, false, inl, inr, ltb, arith, Option-cases,
}
use runscope.Storage.{attempts, retry}
use runscope.Storage.Retry.{
  total, attempts-some, attempts-none, none_from, doubled, at, predecessor, retry-total,
}

-- Each wait is twice the one before.
abbrev pub doubling : ℕ → ℕ → List ℕ
doubling delay zero = []
doubling delay (suc k) = delay ∷ doubling (delay + delay) k

module _ {A : Type 0} (max_attempts base_delay : ℕ) (call : ℕ → Option A) where
  -- `k` failures at the calls from `first` on, and then a success or the last call.
  abbrev pub Stops : ℕ → ℕ → Type 0
  Stops first k =
      ((j : ℕ) → first ≤ j → j < first + k → call j ≡ none)
      × (first + k ≤ max_attempts)
      × ((first + k ≡ max_attempts) ⊎ ((a : A) × (call (first + k) ≡ some a)))

  abbrev Waits : ℕ → List ℕ → Type 0
  Waits n waits = (k : ℕ) × (waits ≡ doubling (base_delay * 2 ^ n) k) × Stops (n + 1) k

  Waits-later :
      (n : ℕ) (waits : List ℕ)
      → call (n + 1) ≡ none
      → Waits (n + 1) waits
      → Waits n (base_delay * 2 ^ n ∷ waits)
  Waits-later n waits failed (k, same, (fails, below, last)) =
      let twice : base_delay * 2 ^ (n + 1) ≡ base_delay * 2 ^ n + base_delay * 2 ^ n =
        doubled max_attempts base_delay call n in
      let place : n + 1 + 1 + k ≡ n + 1 + suc k = omega arith in
      (
        suc k,
        ap (λ l. base_delay * 2 ^ n ∷ l) (same ∙ ap (λ d. doubling d k) twice),
        (
          λ j p q.
              none_from max_attempts base_delay call (n + 1) j failed p
                (λ p'. fails j p' (omega (arith, q))),
          omega (arith, below),
          (elim last [
            | inl e ↦ inl (omega (arith, e))
            | inr (a, here) ↦ inr (a, ap call (sym place) ∙ here)
          ]),
        ),
      )

  last-Waits :
      (n : ℕ)
      → n + 1 ≡ max_attempts
      → call (n + 1) ≡ none
      → Waits n (attempts max_attempts base_delay call 1 (n + 1)).1
  unfolding attempts
  last-Waits n e failed =
      let over : ltb (n + 1) max_attempts ≡ false = ground (arith, e) in
      rw (attempts-none max_attempts base_delay call zero (n + 1) failed, over)
        (0, refl, (λ j p q. absurd (omega (arith, p, q)), omega (arith, e), inl (omega (arith, e))))

  next-waits :
      (left n : ℕ)
      → n + 1 + suc left ≡ max_attempts
      → call (n + 1) ≡ none
      → (attempts max_attempts base_delay call (suc (suc left)) (n + 1)).1
        ≡ base_delay * 2 ^ n ∷ (attempts max_attempts base_delay call (suc left) (n + 1 + 1)).1
  unfolding attempts
  next-waits left n e failed =
      let more : ltb (n + 1) max_attempts ≡ true = ground (arith, e) in
      rw (attempts-none max_attempts base_delay call (suc left) (n + 1) failed, more)
        (ap (λ d. d ∷ (attempts max_attempts base_delay call (suc left) (n + 1 + 1)).1)
          (at max_attempts base_delay call {j = n + 1 - 1} {k = n} (omega arith)))

  first-Waits :
      (left n : ℕ)
      → n + 1 + left ≡ max_attempts
      → (a : A) × (call (n + 1) ≡ some a)
      → Waits n (attempts max_attempts base_delay call (suc left) (n + 1)).1
  first-Waits left n e (a, here) =
      let at_once : n + 1 + 0 ≡ n + 1 = omega arith in
      rw (attempts-some max_attempts base_delay call left (n + 1) here) (
        0,
        refl,
        (λ j p q. absurd (omega (arith, p, q)), omega (arith, e), inr (a, ap call at_once ∙ here)),
      )

  attempts-Waits :
      (left n : ℕ)
      → n + 1 + left ≡ max_attempts
      → Waits n (attempts max_attempts base_delay call (suc left) (n + 1)).1
  attempts-Waits zero n e = elim (Option-cases (call (n + 1))) [
    | inr found ↦ first-Waits zero n e found
    | inl failed ↦ last-Waits n (omega (arith, e)) failed
  ]
  attempts-Waits (suc left) n e = elim (Option-cases (call (n + 1))) [
    | inr found ↦ first-Waits (suc left) n e found
    | inl failed ↦
        subst (Waits n) (sym (next-waits left n e failed))
          (Waits-later n _ failed (attempts-Waits left (n + 1) (omega (arith, e))))
  ]

  first_wait :
      (waits : List ℕ) → Waits 0 waits → (k : ℕ) × (waits ≡ doubling base_delay k) × Stops 1 k
  first_wait waits (k, same, stops) = (k, same ∙ ap (λ d. doubling d k) (omega arith), stops)

  -- With at least one attempt, the waits double: there is one after each failed call but the last,
  -- beginning with the base delay. The calls end with the first that succeeds or at max_attempts.
  -- Together with one more base delay the waits are at most base * 2 ^ (max_attempts - 1).
  pub retry-waits :
      1 ≤ max_attempts
      → ((k : ℕ) × ((retry max_attempts base_delay call).1 ≡ doubling base_delay k) × Stops 1 k)
        × (total (retry max_attempts base_delay call).1 + base_delay
            ≤ base_delay * 2 ^ (max_attempts - 1))
  unfolding retry
  retry-waits h = (
    subst
        (λ left.
          (k : ℕ) × ((attempts max_attempts base_delay call left 1).1 ≡ doubling base_delay k)
          × Stops 1 k)
        (predecessor max_attempts base_delay call max_attempts h)
        (first_wait _ (attempts-Waits (max_attempts - 1) 0 (omega arith))),
    retry-total max_attempts base_delay call h,
  )
