-- ===== src/Storage/Retry.antt =====
-- storage.py: how often `_retry` calls the store, what it returns, and how long it waits.
use native.Mathlib.Nat.{two-pow-succ}
use runscope.Prelude.{
  ℕ, zero, suc, ◌+◌, ◌-◌, ◌*◌, ◌^◌, ◌≤◌, ◌<◌, ◌≡◌, refl, ◌∙◌, sym, ap, subst, ◌⊎◌, List, [], ◌∷◌,
  Option, none, some, inl, inr, ltb, arith, Option-cases, Bool-cases, if◌then◌else◌,
}
use runscope.Models.Store.{Result, ok, err, artifact_storage_error}
use runscope.Storage.{attempts, retry}

abbrev pub total : List ℕ → ℕ
total [] = 0
total (d ∷ ds) = d + total ds

-- The result of the first call that returns, with what the calls before it did.
abbrev pub FirstSuccess : {A : Type 0} → (ℕ → Option A) → ℕ → ℕ → Result A → Type 0
FirstSuccess call first last r =
    ((k : ℕ) × (a : _) × (first ≤ k)
      × (k ≤ last)
      × (call k ≡ some a)
      × (r ≡ ok a)
      × ((j : ℕ) → first ≤ j → j < k → call j ≡ none))
    ⊎ ((r ≡ err artifact_storage_error) × ((j : ℕ) → first ≤ j → j ≤ last → call j ≡ none))

module _ {A : Type 0} (max_attempts base_delay : ℕ) (call : ℕ → Option A) where
  pub attempts-some :
      (left n : ℕ) {a : A}
      → call n ≡ some a
      → attempts max_attempts base_delay call (suc left) n ≡ (ok a, [])
  unfolding attempts
  attempts-some left n e = rw (e, attempts) refl

  pub attempts-none :
      (left n : ℕ)
      → call n ≡ none
      → attempts max_attempts base_delay call (suc left) n ≡ (
        (attempts max_attempts base_delay call left (n + 1)).0,
        (if ltb n max_attempts
            then base_delay * 2 ^ (n - 1) ∷ (attempts max_attempts base_delay call left (n + 1)).1
            else (attempts max_attempts base_delay call left (n + 1)).1),
      )
  unfolding attempts
  attempts-none left n e = rw (e, attempts) refl

  pub none_from : (n j : ℕ) → call n ≡ none → n ≤ j → (n + 1 ≤ j → call j ≡ none) → call j ≡ none
  none_from n j e p later = elim (Bool-cases (ltb n j)) [
    | inl less ↦ later (ground arith)
    | inr not_less ↦ ap call (ground arith) ∙ e
  ]

  FirstSuccess-later :
      (n last : ℕ) (r : Result A)
      → call n ≡ none
      → FirstSuccess call (n + 1) last r
      → FirstSuccess call n last r
  FirstSuccess-later n last r e (inl (k, a, above, below, here, result, before)) =
      inl (k, a, omega arith, below, here, result, λ j p q. none_from n j e p (λ p'. before j p' q))
  FirstSuccess-later n last r e (inr (result, none_at)) =
      inr (result, λ j p q. none_from n j e p (λ p'. none_at j p' q))

  attempts-FirstSuccess :
      (left n : ℕ)
      → n + left ≡ max_attempts + 1
      → FirstSuccess call n max_attempts (attempts max_attempts base_delay call left n).0
  unfolding attempts
  attempts-FirstSuccess zero n e = inr (refl, λ j p q. absurd (omega arith))
  attempts-FirstSuccess (suc left) n e = elim (Option-cases (call n)) [
    | inr (a, here) ↦
        subst (λ r. FirstSuccess call n max_attempts r.0) (sym (attempts-some left n here))
          (inl (n, a, omega arith, omega arith, here, refl, λ j p q. absurd (omega arith)))
    | inl failed ↦
        subst (λ r. FirstSuccess call n max_attempts r.0) (sym (attempts-none left n failed))
          (FirstSuccess-later n max_attempts _ failed
            (attempts-FirstSuccess left (n + 1) (omega arith)))
  ]

  -- Retrying returns what the first call that succeeds returns, among at most `max_attempts` calls,
  -- and raises ArtifactStorageError exactly where all of them fail.
  pub retry-FirstSuccess : FirstSuccess call 1 max_attempts (retry max_attempts base_delay call).0
  unfolding retry
  retry-FirstSuccess = attempts-FirstSuccess max_attempts 1 (omega arith)

  pub doubled : (n : ℕ) → base_delay * 2 ^ (n + 1) ≡ base_delay * 2 ^ n + base_delay * 2 ^ n
  doubled n =
      ap (λ p. base_delay * p) (ap (λ k. 2 ^ k) (plus_one n) ∙ two-pow-succ n) ∙ twice (2 ^ n)
    where
      plus_one : (k : ℕ) → k + 1 ≡ suc k
      plus_one k = omega arith

      twice : (p : ℕ) → base_delay * (p + p) ≡ base_delay * p + base_delay * p
      twice p = grind arith

  pub at : {j k : ℕ} → j ≡ k → base_delay * 2 ^ j ≡ base_delay * 2 ^ k
  at e = ap (λ k. base_delay * 2 ^ k) e

  grows : (n k : ℕ) → base_delay * 2 ^ n ≤ base_delay * 2 ^ (n + k)
  grows n zero = omega (arith, at {j = n} {k = n + 0} (omega arith))
  grows n (suc k) =
      omega (arith, grows n k, doubled (n + k), at {j = n + suc k} {k = n + k + 1} (omega arith))

  rest_total : ℕ → ℕ → ℕ
  rest_total left n = total (attempts max_attempts base_delay call left (n + 1 + 1)).1

  after_failure :
      (left n : ℕ)
      → n + 1 + left ≡ max_attempts
      → (left ≡ 0 → rest_total left n ≡ 0)
      → (1 ≤ left → rest_total left n + base_delay * 2 ^ (n + 1) ≤ base_delay * 2 ^ (n + left))
      → total (
            if ltb (n + 1) max_attempts
            then base_delay * 2 ^ (n + 1 - 1)
              ∷ (attempts max_attempts base_delay call left (n + 1 + 1)).1
            else (attempts max_attempts base_delay call left (n + 1 + 1)).1)
          + base_delay * 2 ^ n
        ≤ base_delay * 2 ^ (n + left)
  unfolding rest_total
  after_failure left n e last more = elim (Bool-cases (ltb (n + 1) max_attempts)) [
    | inl less ↦
        rw less
          (omega (arith, doubled n, more (ground arith), at {j = n + 1 - 1} {k = n} (omega arith)))
    | inr done ↦ rw done (omega (arith, last (ground arith), grows n left))
  ]

  attempts-total :
      (left n : ℕ)
      → n + 1 + left ≡ max_attempts
      → total (attempts max_attempts base_delay call (suc left) (n + 1)).1 + base_delay * 2 ^ n
        ≤ base_delay * 2 ^ (n + left)
  unfolding attempts rest_total
  attempts-total zero n e = elim (Option-cases (call (n + 1))) [
    | inr (a, here) ↦ rw (attempts-some zero (n + 1) here) (omega (arith, grows n zero))
    | inl failed ↦
        rw (attempts-none zero (n + 1) failed)
          (after_failure zero n e (λ _. refl) (λ p. absurd (omega arith)))
  ]
  attempts-total (suc left) n e = elim (Option-cases (call (n + 1))) [
    | inr (a, here) ↦ rw (attempts-some (suc left) (n + 1) here) (omega (arith, grows n (suc left)))
    | inl failed ↦ rw (attempts-none (suc left) (n + 1) failed) (
        after_failure (suc left) n e (λ z. absurd (omega arith))
          (λ _. omega (
            arith,
            attempts-total left (n + 1) (omega arith),
            at {j = n + 1 + left} {k = n + suc left} (omega arith),
          )))
  ]

  pub predecessor : (k : ℕ) → 1 ≤ k → suc (k - 1) ≡ k
  predecessor k q = omega arith

  -- The waits and one more base delay are at most base * 2 ^ (max_attempts - 1).
  pub retry-total :
      1 ≤ max_attempts
      → total (retry max_attempts base_delay call).1 + base_delay
        ≤ base_delay * 2 ^ (max_attempts - 1)
  unfolding retry
  retry-total h =
      subst
        (λ left.
          total (attempts max_attempts base_delay call left 1).1 + base_delay
          ≤ base_delay * 2 ^ (max_attempts - 1))
        (predecessor max_attempts h)
        (omega (
          arith,
          attempts-total (max_attempts - 1) 0 (omega arith),
          at {j = 0 + (max_attempts - 1)} {k = max_attempts - 1} (omega arith),
        ))
