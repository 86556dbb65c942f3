-- ===== src/Seed/Repeated.antt =====
-- seed.py: seeding again creates nothing and changes nothing.
use runscope.Prelude.{
  ℕ, ◌+◌, ◌≤◌, ◌≡◌, refl, sym, ap, ◌∙◌, subst, List, [], ◌∷◌, map, Option, none, some, Bool, true,
  false, key_in, Unique, All, All-map, first_row, first_row-holds, first_row-save,
  first_row-save-other, save, save_found, keys-save, inl, inr, Bool-cases, Option-cases, arith,
}
use runscope.Models.{Uuid}
use runscope.Seed.{Table, seed_found, seed_rows}

module _ {A D : Type 0} (id : A → Uuid) (matches : D → A → Bool) where
  -- Identifiers are unique, and those from the next one on are not used.
  abbrev pub Sound : Table A → Type 0
  Sound (rows, next_id) =
      Unique (map id rows) × ((j : ℕ) → next_id ≤ j → key_in j (map id rows) ≡ false)

  -- No row meets the conditions of both.
  abbrev pub Exclusive : D → D → Type 0
  Exclusive d e = (a : A) → matches d a ≡ true → matches e a ≡ false

  abbrev pub AllExclusive : List D → Type 0
  AllExclusive [] = Unit
  AllExclusive (d ∷ ds) = All (Exclusive d) ds × AllExclusive ds

  -- The row of the definition is there, as `Fits` wants it.
  abbrev pub Seeded : (D → A → Type 0) → List A → D → Type 0
  Seeded Fits rows d = (a : A) × (first_row (matches d) rows ≡ some a) × Fits d a

  module _ (create : D → Uuid → A) (refresh : D → A → A) (Fits : D → A → Type 0)
      (id-create : (d : D) (n : Uuid) → id (create d n) ≡ n)
      (matches-create : (d : D) (n : Uuid) → matches d (create d n) ≡ true)
      (create-Fits : (d : D) (n : Uuid) → Fits d (create d n))
      (id-refresh : (d : D) (a : A) → id (refresh d a) ≡ id a)
      (matches-refresh : (e d : D) (a : A) → matches e (refresh d a) ≡ matches e a)
      (refresh-Fits : (d : D) (a : A) → Fits d (refresh d a)) where
    -- One step: the table is sound, has the row, and keeps the rows of others.
    abbrev pub Step : D → Table A → Table A → Type 0
    Step d before after =
        Sound after
        × Seeded Fits after.0 d
        × ((e : D) → Exclusive d e → first_row (matches e) after.0 ≡ first_row (matches e) before.0)

    seed_found-Step :
        (d : D) (o : Option A) (table : Table A)
        → first_row (matches d) table.0 ≡ o
        → Sound table
        → Step d table (seed_found id matches create refresh d o table).1
    unfolding seed_found first_row
    seed_found-Step d none (rows, next_id) found sound =
        let unused : key_in (id (create d next_id)) (map id rows) ≡ false =
          ap (λ j. key_in j (map id rows)) (id-create d next_id) ∙ sound.1 next_id (omega arith) in
        (
          (
            (unused, sound.0),
            λ j later. ground (arith, id-create d next_id, sound.1 j (omega (arith, later))),
          ),
          (create d next_id, rw (matches-create d next_id) refl, create-Fits d next_id),
          λ e apart. rw (apart (create d next_id) (matches-create d next_id)) refl,
        )
    seed_found-Step d (some a) (rows, next_id) found sound =
        let holds : matches d a ≡ true = first_row-holds (matches d) rows found in
        let id_same = id-refresh d a in
        (
          subst (λ ids. Unique ids × ((j : ℕ) → next_id ≤ j → key_in j ids ≡ false))
              (sym (keys-save id (refresh d a) rows)) sound,
          (
            refresh d a,
            first_row-save id (matches d) (refresh d a) rows sound.0 found id_same
                (matches-refresh d d a ∙ holds),
            refresh-Fits d a,
          ),
          λ e apart.
              first_row-save-other id (matches d) (matches e) (refresh d a) rows sound.0 found
                id_same (matches-refresh e d a ∙ apart a holds) (apart a holds),
        )

    flipped : (d e : D) → Exclusive d e → Exclusive e d
    flipped d e apart a h = elim (Bool-cases (matches d a)) [
      | inl m ↦ cc (apart a m, h)
      | inr m ↦ m
    ]

    -- After the loop every definition has its row.
    pub seed_rows-Seeded :
        (ds : List D) (table : Table A)
        → AllExclusive ds
        → Sound table
        → let after = (seed_rows id matches create refresh ds table).1 in
          Sound after
          × All (Seeded Fits after.0) ds
          × ((e : D)
              → All (λ d. Exclusive d e) ds
              → first_row (matches e) after.0 ≡ first_row (matches e) table.0)
    unfolding seed_rows
    seed_rows-Seeded [] table apart sound = (sound, tt, λ e h. refl)
    seed_rows-Seeded (d ∷ ds) table apart sound =
        let (sound1, here, kept) = seed_found-Step d _ table refl sound in
        let (sound2, rest, later) = seed_rows-Seeded ds _ apart.1 sound1 in
        (
          sound2,
          (
            (
              here.0,
              later d (All-map (Exclusive d) (λ e. Exclusive e d) ds (λ e. flipped d e) apart.0)
                  ∙ here.1,
              here.2,
            ),
            rest,
          ),
          λ e h. later e h.1 ∙ kept e h.0,
        )

  -- A second loop, with other new values, finds the rows as they should be.
  pub seed_rows-settled :
      (create : D → Uuid → A) (refresh : D → A → A) (Fits : D → A → Type 0)
      (Fits-refresh : (d : D) (a : A) → Fits d a → refresh d a ≡ a) (ds : List D) (table : Table A)
      → Sound table
      → All (Seeded Fits table.0) ds
      → seed_rows id matches create refresh ds table ≡ (0, table)
  unfolding seed_rows seed_found
  seed_rows-settled create refresh Fits Fits-refresh [] table sound seeded = refl
  seed_rows-settled create refresh Fits Fits-refresh (d ∷ ds) (rows, next_id) sound seeded =
      let (a, found, fits) = seeded.0 in
      rw
        (
          found,
          Fits-refresh d a fits,
          save_found id (matches d) rows sound.0 found,
          seed_rows-settled create refresh Fits Fits-refresh ds (rows, next_id) sound seeded.1,
        )
        refl

  -- Identifiers only go up.
  pub seed_rows-next :
      (create : D → Uuid → A) (refresh : D → A → A) (ds : List D) (table : Table A)
      → table.1 ≤ (seed_rows id matches create refresh ds table).1.1
  unfolding seed_rows seed_found
  seed_rows-next create refresh [] table = omega arith
  seed_rows-next create refresh (d ∷ ds) (rows, next_id) =
      elim (Option-cases (first_row (matches d) rows)) [
        | inl e ↦ rw e (
            let up = seed_rows-next create refresh ds (create d next_id ∷ rows, next_id + 1) in
            omega (arith, up))
        | inr (a, e) ↦ rw e (seed_rows-next create refresh ds (save id (refresh d a) rows, next_id))
      ]

  pub Sound-later : (rows : List A) (n m : ℕ) → n ≤ m → Sound (rows, n) → Sound (rows, m)
  Sound-later rows n m up sound = (sound.0, λ j later. sound.1 j (omega (arith, up, later)))
