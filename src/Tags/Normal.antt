-- ===== src/Tags/Normal.antt =====
-- What the normalised tags are.
use package.text.Mathlib.Text.{◌==◌ as str_eq}
use package.text.Mathlib.TextEquality.{eq_iff}
use runscope.Prelude.{
  ◌≡◌, ◌↔◌, ◌⊎◌, refl, sym, ap, ◌∙◌, String, List, [], ◌∷◌, true, false, All, arith, inl, inr,
  Bool-cases,
}
use runscope.Tags.{StrMethods, str_in, from_keys, stripped, normalize_tags}

-- No two tags are the same.
abbrev pub Distinct : List String → Type 0
Distinct [] = Unit
Distinct (t ∷ ts) = (str_in t ts ≡ false) × Distinct ts

-- What was seen does not come again.
from_keys-seen :
    (s : String) (seen tags : List String)
    → str_in s seen ≡ true
    → str_in s (from_keys seen tags) ≡ false
unfolding from_keys
from_keys-seen s seen [] h = refl
from_keys-seen s seen (t ∷ ts) h =
    ground (arith, eq_iff t s, from_keys-seen s seen ts, from_keys-seen s (t ∷ seen) ts)

from_keys-Distinct : (seen tags : List String) → Distinct (from_keys seen tags)
unfolding from_keys
from_keys-Distinct seen [] = tt
from_keys-Distinct seen (t ∷ ts) = elim (Bool-cases (str_in t seen)) [
  | inl e ↦ rw e (from_keys-Distinct seen ts)
  | inr e ↦ rw e (
    from_keys-seen t (t ∷ seen) ts (ground (arith, eq_iff t t)),
    from_keys-Distinct (t ∷ seen) ts,
  )
]

-- A value is kept exactly if it is among the given ones and was not seen.
from_keys-str_in :
    (s : String) (seen tags : List String)
    → str_in s seen ≡ false
    → str_in s (from_keys seen tags) ≡ str_in s tags
unfolding from_keys
from_keys-str_in s seen [] h = refl
from_keys-str_in s seen (t ∷ ts) h =
    ground (arith, eq_iff t s, from_keys-str_in s seen ts, from_keys-str_in s (t ∷ seen) ts)

-- A list of distinct new values stays as it is.
from_keys-same :
    (seen tags : List String)
    → Distinct tags
    → All (λ t. str_in t seen ≡ false) tags
    → from_keys seen tags ≡ tags
unfolding from_keys
from_keys-same seen [] d fresh = refl
from_keys-same seen (t ∷ ts) d fresh =
    rw fresh.0 (ap (λ l. t ∷ l) (from_keys-same (t ∷ seen) ts d.1 (still_new ts d.0 fresh.1)))
  where
    still_new :
        (us : List String)
        → str_in t us ≡ false
        → All (λ u. str_in u seen ≡ false) us
        → All (λ u. str_in u (t ∷ seen) ≡ false) us
    still_new [] n f = tt
    still_new (u ∷ us) n f =
        (ground (arith, eq_iff t u, eq_iff u t, f.0), still_new us (ground arith) f.1)

module _ (str : StrMethods) where
  open str use {strip, lower}

  -- The text is the stripped, lower-case form of one of the tags that is not blank.
  abbrev pub Given : String → List String → Type 0
  Given s [] = ⊥
  Given s (tag ∷ tags) = ((str_eq (strip tag) "" ≡ false) × (lower (strip tag) ≡ s)) ⊎ Given s tags

  stripped-Given :
      (s : String) (tags : List String) → str_in s (stripped str tags) ≡ true → Given s tags
  unfolding stripped
  stripped-Given s [] h = ground arith
  stripped-Given s (tag ∷ tags) h = elim (Bool-cases (str_eq (strip tag) "")) [
    | inl e ↦ inr (stripped-Given s tags (ground (arith, h, e)))
    | inr e ↦ elim (Bool-cases (str_eq (lower (strip tag)) s)) [
      | inl here ↦ inl (e, (eq_iff (lower (strip tag)) s).0 here)
      | inr other ↦ inr (stripped-Given s tags (ground (arith, h, e, other)))
    ]
  ]

  Given-stripped :
      (s : String) (tags : List String) → Given s tags → str_in s (stripped str tags) ≡ true
  unfolding stripped
  Given-stripped s [] h = absurd h
  Given-stripped s (tag ∷ tags) (inl (e, same)) =
      rw e (ground (arith, (eq_iff (lower (strip tag)) s).1 same))
  Given-stripped s (tag ∷ tags) (inr h) = elim (Bool-cases (str_eq (strip tag) "")) [
    | inl e ↦ rw e (Given-stripped s tags h)
    | inr e ↦ rw e (ground (arith, Given-stripped s tags h))
  ]

  -- No tag stands twice among the normalised tags, and a text is one of them exactly if it is the
  -- stripped, lower-case form of a given tag that is not blank.
  pub normalize_tags_lem :
      (tags : List String)
      → Distinct (normalize_tags str tags)
        × ((s : String) → (str_in s (normalize_tags str tags) ≡ true) ↔ Given s tags)
  unfolding normalize_tags
  normalize_tags_lem tags = (
    from_keys-Distinct [] (stripped str tags),
    λ s.
        let kept = from_keys-str_in s [] (stripped str tags) refl in
        (λ h. stripped-Given s tags (sym kept ∙ h), λ g. kept ∙ Given-stripped s tags g),
  )

  abbrev IsNormal : String → Type 0
  IsNormal s = (strip s ≡ s) × (lower s ≡ s) × (str_eq s "" ≡ false)

  from_keys-IsNormal :
      (seen tags : List String) → All IsNormal tags → All IsNormal (from_keys seen tags)
  unfolding from_keys
  from_keys-IsNormal seen [] h = tt
  from_keys-IsNormal seen (t ∷ ts) h = elim (Bool-cases (str_in t seen)) [
    | inl e ↦ rw e (from_keys-IsNormal seen ts h.1)
    | inr e ↦ rw e (h.0, from_keys-IsNormal (t ∷ seen) ts h.1)
  ]

  stripped-same : (tags : List String) → All IsNormal tags → stripped str tags ≡ tags
  unfolding stripped
  stripped-same [] h = refl
  stripped-same (t ∷ ts) h = rw (h.0.0, h.0.2, h.0.1) (ap (λ l. t ∷ l) (stripped-same ts h.1))

  module _ (strip_lower : (s : String) → strip (lower (strip s)) ≡ lower (strip s))
      (lower_twice : (s : String) → lower (lower s) ≡ lower s)
      (lower_blank : (s : String) → str_eq (lower s) "" ≡ str_eq s "") where
    stripped-IsNormal : (tags : List String) → All IsNormal (stripped str tags)
    unfolding stripped
    stripped-IsNormal [] = tt
    stripped-IsNormal (t ∷ ts) = elim (Bool-cases (str_eq (strip t) "")) [
      | inl e ↦ rw e (stripped-IsNormal ts)
      | inr e ↦
          rw e (
            (strip_lower t, lower_twice (strip t), lower_blank (strip t) ∙ e),
            stripped-IsNormal ts,
          )
    ]

    -- Where lower-casing is idempotent, makes no text blank and leaves a stripped text stripped,
    -- normalised tags are normalised again to themselves.
    pub normalize_tags_idem :
        (tags : List String)
        → normalize_tags str (normalize_tags str tags) ≡ normalize_tags str tags
    unfolding normalize_tags
    normalize_tags_idem tags =
        ap (from_keys []) (
          stripped-same (from_keys [] (stripped str tags))
            (from_keys-IsNormal [] (stripped str tags) (stripped-IsNormal tags)))
        ∙ from_keys-same [] (from_keys [] (stripped str tags))
            (from_keys-Distinct [] (stripped str tags)) (new (from_keys [] (stripped str tags)))
      where
        new : (ts : List String) → All (λ t. str_in t [] ≡ false) ts
        new [] = tt
        new (t ∷ ts) = (refl, new ts)
