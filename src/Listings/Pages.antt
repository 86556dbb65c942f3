-- ===== src/Listings/Pages.antt =====
-- The pages of a listing, read one after the other.
use runscope.Prelude.{
  length-order_by, ℕ, zero, suc, ◌+◌, ◌-◌, ◌*◌, ◌≤◌, ◌≡◌, refl, sym, ap, ◌∙◌, List, [], ◌∷◌, ◌++◌,
  Bool, ◌==◌, leb, length, where_rows, order_by, take, drop, inl, inr, arith, Bool-cases,
  if◌then◌else◌,
}
use runscope.Listings.{Page, page_count, listing}

module _ {A : Type 0} where
  length-take :
      (n : ℕ) (xs : List A) → length (take n xs) ≡ (if leb n (length xs) then n else length xs)
  unfolding take
  length-take zero xs = ground arith
  length-take (suc n) [] = ground arith
  length-take (suc n) (x ∷ xs) = ground (arith, length-take n xs)

  length-drop : (n : ℕ) (xs : List A) → length (drop n xs) ≡ length xs - n
  unfolding drop
  length-drop zero xs = ground arith
  length-drop (suc n) [] = ground arith
  length-drop (suc n) (x ∷ xs) = ground (arith, length-drop n xs)

  take-empty : (n : ℕ) → take {A = A} n [] ≡ []
  unfolding take
  take-empty zero = refl
  take-empty (suc n) = refl

  drop-empty : (n : ℕ) → drop {A = A} n [] ≡ []
  unfolding drop
  drop-empty zero = refl
  drop-empty (suc n) = refl

  take-all : (n : ℕ) (xs : List A) → length xs ≤ n → take n xs ≡ xs
  unfolding take
  take-all zero [] h = refl
  take-all zero (x ∷ xs) h = ground arith
  take-all (suc n) [] h = refl
  take-all (suc n) (x ∷ xs) h = ground (arith, take-all n xs)

  -- A page and what follows it.
  take-parts : (m n : ℕ) (xs : List A) → take m xs ++ take n (drop m xs) ≡ take (m + n) xs
  unfolding take drop
  take-parts zero n xs = let e : n ≡ 0 + n = omega arith in ap (λ k. take k xs) e
  take-parts (suc m) n [] = take-empty n ∙ sym (take-empty (suc m + n))
  take-parts (suc m) n (x ∷ xs) =
      let e : suc (m + n) ≡ suc m + n = omega arith in
      ap (λ ys. x ∷ ys) (take-parts m n xs) ∙ ap (λ k. take k (x ∷ xs)) e

  drop-drop : (m n : ℕ) (xs : List A) → drop n (drop m xs) ≡ drop (m + n) xs
  unfolding drop
  drop-drop zero n xs = let e : n ≡ 0 + n = omega arith in ap (λ k. drop k xs) e
  drop-drop (suc m) n [] = drop-empty n ∙ sym (drop-empty (suc m + n))
  drop-drop (suc m) n (x ∷ xs) =
      let e : suc (m + n) ≡ suc m + n = omega arith in
      drop-drop m n xs ∙ ap (λ k. drop k (x ∷ xs)) e

  -- The items of `n` pages from the `page`-th on.
  unfoldable pub read_pages : (ℕ → Page A) → ℕ → ℕ → List A
  read_pages read zero page = []
  read_pages read (suc n) page = (read page).items ++ read_pages read n (page + 1)

  module _ (filters : A → Bool) (before : A → A → Bool) (rows : List A) (page_size : ℕ) where
    abbrev selection : List A
    selection = order_by before (where_rows filters rows)

    pages_from :
        (n k : ℕ)
        → read_pages (λ page. listing filters before rows page page_size) n (k + 1)
          ≡ take (n * page_size) (drop (k * page_size) selection)
    unfolding read_pages listing take
    pages_from zero k =
        let e : 0 ≡ 0 * page_size = omega arith in
        ap (λ m. take m (drop (k * page_size) selection)) e
    pages_from (suc n) k =
        let here : (k + 1 - 1) * page_size ≡ k * page_size =
          ap (λ m. m * page_size) (omega arith) in
        let next : (k + 1) * page_size ≡ k * page_size + page_size = omega arith in
        let whole : page_size + n * page_size ≡ suc n * page_size = omega arith in
        ap
          (λ m.
            take page_size (drop m selection)
            ++ read_pages (λ page. listing filters before rows page page_size) n (k + 1 + 1))
          here
        ∙ ap (λ ys. take page_size (drop (k * page_size) selection) ++ ys)
            (pages_from n (k + 1)
              ∙ ap (λ m. take (n * page_size) (drop m selection)) next
              ∙ ap (take (n * page_size)) (sym (drop-drop (k * page_size) page_size selection)))
        ∙ take-parts page_size (n * page_size) (drop (k * page_size) selection)
        ∙ ap (λ m. take m (drop (k * page_size) selection)) whole

    -- The number of pages is just enough.
    enough : (total : ℕ) → 1 ≤ page_size → total ≤ page_count total page_size * page_size
    unfolding page_count
    enough total h = elim (Bool-cases (total == 0)) [
      | inl e ↦ rw e (ground arith)
      | inr e ↦ rw e (omega arith)
    ]

    -- Reading all pages of a listing, from the first to the number it reports, gives every row
    -- that the filters accept, in the order asked for, and each once.
    pub listing-pages :
        1 ≤ page_size
        → read_pages
            (λ page. listing filters before rows page page_size)
            (listing filters before rows 1 page_size).pages
            1
          ≡ order_by before (where_rows filters rows)
    unfolding listing drop
    listing-pages h =
        let total = length (where_rows filters rows) in
        pages_from (page_count total page_size) 0
        ∙ ap (take (page_count total page_size * page_size))
            (let e : 0 * page_size ≡ 0 = omega arith in ap (λ m. drop m selection) e)
        ∙ take-all (page_count total page_size * page_size) selection
            (ground (arith, length-order_by before (where_rows filters rows), enough total h))

    -- A page is full, or the last one.
    pub listing-size :
        (page : ℕ)
        → let r = listing filters before rows page page_size in
          length r.items ≡ (
            if leb page_size (r.total - (page - 1) * page_size)
            then page_size
            else r.total - (page - 1) * page_size)
    unfolding listing
    listing-size page =
        length-take page_size (drop ((page - 1) * page_size) selection)
        ∙ rw
            (
              length-drop ((page - 1) * page_size) selection,
              length-order_by before (where_rows filters rows),
            )
            refl
