-- ===== src/Models/Store/Done.antt =====
-- Total correctness of transactions: they commit, and the new database has a property.
use runscope.Prelude.{ℕ, String, Option, none, some, ◌≡◌, ◌∷◌, [], List, refl, subst}
use runscope.Models.Store.{Db, Result, ok, err, Tx, ◌>>=◌, lift, or_raise, and_then, for_each}

abbrev pub Done : {A : Type 0} → (A → Db → Type 0) → Result (A × Db) → Type 0
Done P (ok (a, db)) = P a db
Done P (err e) = ⊥

pub Done-and_then :
    {A B : Type 0} (P : A → Db → Type 0) (Q : B → Db → Type 0) (r : Result (A × Db)) (f : A → Tx B)
    → Done P r
    → ((a : A) (db : Db) → P a db → Done Q (f a db))
    → Done Q (and_then r f)
Done-and_then P Q (ok (a, db)) f h k = k a db h
Done-and_then P Q (err e) f h k = absurd h

pub Done-both :
    {A : Type 0} (P Q : A → Db → Type 0) (r : Result (A × Db))
    → Done P r
    → Done Q r
    → Done (λ a db. P a db × Q a db) r
Done-both P Q (ok (a, db)) h k = (h, k)
Done-both P Q (err e) h k = h

pub Done-result :
    {A : Type 0} (P : A → Db → Type 0) (r : Result (A × Db))
    → Done P r
    → (a : A) × (db : Db) × (r ≡ ok (a, db)) × P a db
Done-result P (ok (a, db)) h = (a, db, refl, h)
Done-result P (err e) h = absurd h

pub Done-for_each :
    {A : Type 0} (P : Db → Type 0) (xs : List A) (body : A → Tx (Unit {0})) (db : Db)
    → ((x : A) (db : Db) → P db → Done (λ _. P) (body x db))
    → P db
    → Done (λ _. P) (for_each xs body db)
unfolding for_each
Done-for_each P [] body db step h = h
Done-for_each P (x ∷ xs) body db step h =
    Done-and_then (λ _. P) (λ _. P) (body x db) (λ _. for_each xs body) (step x db h)
      (λ _ db' h'. Done-for_each P xs body db' step h')

-- Partial correctness, where a transaction may raise: what holds if it commits.
abbrev pub Holds : {A : Type 0} → (A → Db → Type 0) → Result (A × Db) → Type 0
Holds P (ok (a, db)) = P a db
Holds P (err e) = Unit

pub Done-Holds : {A : Type 0} (P : A → Db → Type 0) (r : Result (A × Db)) → Done P r → Holds P r
Done-Holds P (ok (a, db)) h = h
Done-Holds P (err e) h = tt

pub Done-Holds-both :
    {A : Type 0} (P Q : A → Db → Type 0) (r : Result (A × Db))
    → Done P r
    → Holds Q r
    → Done (λ a db. P a db × Q a db) r
Done-Holds-both P Q (ok (a, db)) h k = (h, k)
Done-Holds-both P Q (err e) h k = h

pub Holds-and_then :
    {A B : Type 0} (P : A → Db → Type 0) (Q : B → Db → Type 0) (r : Result (A × Db)) (f : A → Tx B)
    → Holds P r
    → ((a : A) (db : Db) → P a db → Holds Q (f a db))
    → Holds Q (and_then r f)
Holds-and_then P Q (ok (a, db)) f h k = k a db h
Holds-and_then P Q (err e) f h k = tt

pub Holds-lift :
    {A B : Type 0} (Q : B → Db → Type 0) (r : Result A) (f : A → Tx B) (db : Db)
    → ((a : A) → r ≡ ok a → Holds Q (f a db))
    → Holds Q ((lift r >>= f) db)
Holds-lift Q (ok a) f db k = k a refl
Holds-lift Q (err e) f db k = tt

-- For the row that is there.
pub Holds-or_raise :
    {A B : Type 0} (Q : B → Db → Type 0) (o : Option A) (code : String) (status : ℕ) (f : A → Tx B)
    (db : Db)
    → ((a : A) → o ≡ some a → Holds Q (f a db))
    → Holds Q ((lift (or_raise o code status) >>= f) db)
Holds-or_raise Q none code status f db k = tt
Holds-or_raise Q (some a) code status f db k = k a refl

pub Holds-result :
    {A : Type 0} (P : A → Db → Type 0) (r : Result (A × Db)) {a : A} {db : Db}
    → Holds P r
    → r ≡ ok (a, db)
    → P a db
Holds-result P r {a} {db} h e = subst (Holds P) e h

pub Holds-map :
    {A : Type 0} (P Q : Db → Type 0) (r : Result (A × Db))
    → ((db : Db) → P db → Q db)
    → Holds (λ _. P) r
    → Holds (λ _. Q) r
Holds-map P Q (ok (a, db)) f h = f db h
Holds-map P Q (err e) f h = tt

pub Holds-for_each :
    {A : Type 0} (P : Db → Type 0) (xs : List A) (body : A → Tx (Unit {0})) (db : Db)
    → ((x : A) (db : Db) → P db → Holds (λ _. P) (body x db))
    → P db
    → Holds (λ _. P) (for_each xs body db)
unfolding for_each
Holds-for_each P [] body db step h = h
Holds-for_each P (x ∷ xs) body db step h =
    Holds-and_then (λ _. P) (λ _. P) (body x db) (λ _. for_each xs body) (step x db h)
      (λ _ db' h'. Holds-for_each P xs body db' step h')
