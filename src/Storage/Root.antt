-- ===== src/Storage/Root.antt =====
-- storage.py: the local store stays below its root.
use text.Mathlib.Text.{◌==◌ as str_eq}
use text.Mathlib.TextEquality.{eq_iff}
use runscope.Prelude.{
  ◌≡◌, ◌⊎◌, refl, sym, ap, ◌∙◌, String, List, [], ◌∷◌, ◌++◌, none, some, Bool, true, ◌&&◌, inl, inr,
  false, All, arith, Bool-cases, if◌then◌else◌,
}
use runscope.Storage.{Key, walk, resolve, same_path, in_parents, path}

-- The path is a file or a directory below the root: names, and then the root's own.
abbrev pub Below : List String → List String → Type 0
Below root target = (name : String) × (names : List String) × (target ≡ name ∷ (names ++ root))

both : (a b : Bool) → (a && b) ≡ true → (a ≡ true) × (b ≡ true)
both a b h = ground arith

pub same_path-equal : (a b : List String) → same_path a b ≡ true → a ≡ b
same_path-equal [] [] h = refl
same_path-equal [] (y ∷ ys) h = cc
same_path-equal (x ∷ xs) [] h = cc
same_path-equal (x ∷ xs) (y ∷ ys) h =
    let (here, rest) = both (str_eq x y) (same_path xs ys) h in
    ap (λ s. s ∷ xs) ((eq_iff x y).0 here) ∙ ap (λ ss. y ∷ ss) (same_path-equal xs ys rest)

pub same_path_refl : (a : List String) → same_path a a ≡ true
same_path_refl [] = refl
same_path_refl (x ∷ xs) = rw ((eq_iff x x).1 refl, same_path_refl xs)

Below-in_parents :
    (root : List String) (name : String) (names : List String)
    → in_parents root (name ∷ (names ++ root)) ≡ true
Below-in_parents [] name [] = refl
Below-in_parents (r ∷ rs) name [] = ground (arith, same_path_refl (r ∷ rs))
Below-in_parents root name (n ∷ ns) = ground (arith, Below-in_parents root n ns)

in_parents-Below : (root target : List String) → in_parents root target ≡ true → Below root target
in_parents-Below root [] h = cc
in_parents-Below root (s ∷ outer) h = elim (Bool-cases (same_path root outer)) [
  | inl e ↦ (s, [], ap (λ p. s ∷ p) (sym (same_path-equal root outer e)))
  | inr e ↦
      let deeper : in_parents root outer ≡ true = ground arith in
      let (name, names, same) = in_parents-Below root outer deeper in
      (s, name ∷ names, ap (λ p. s ∷ p) same)
]

-- A name, neither `.` nor `..`.
abbrev pub Plain : String → Type 0
Plain s = (str_eq s ".." ≡ false) × (str_eq s "." ≡ false)

outer-All :
    (here : List String) → All Plain here → All Plain (elim here [ [] ↦ [] | _ ∷ outer ↦ outer ])
outer-All [] h = tt
outer-All (s ∷ outer) h = h.1

-- Walking leaves no `.` and no `..`.
walk-All : (here segments : List String) → All Plain here → All Plain (walk here segments)
walk-All here [] h = h
walk-All here (s ∷ rest) h = elim (Bool-cases (str_eq s "..")) [
  | inl up ↦ rw up (walk-All _ rest (outer-All here h))
  | inr name ↦ elim (Bool-cases (str_eq s ".")) [
    | inl stay ↦ rw (name, stay) (walk-All here rest h)
    | inr dir ↦ rw (name, dir) (walk-All (s ∷ here) rest ((name, dir), h))
  ]
]

-- A name and the `..` behind it cancel, anywhere in the segments.
walk-cancels :
    (here before rest : List String) (name : String)
    → Plain name
    → walk here (before ++ name ∷ ".." ∷ rest) ≡ walk here (before ++ rest)
walk-cancels here [] rest name plain = rw (plain.0, plain.1) refl
walk-cancels here (s ∷ before) rest name plain = elim (Bool-cases (str_eq s "..")) [
  | inl up ↦ rw up (walk-cancels _ before rest name plain)
  | inr other ↦ elim (Bool-cases (str_eq s ".")) [
    | inl stay ↦ rw (other, stay) (walk-cancels here before rest name plain)
    | inr dir ↦ rw (other, dir) (walk-cancels (s ∷ here) before rest name plain)
  ]
]

-- Where the root is written without `.` and `..`, the path of a key is a path without them that is
-- below the root, and any key that leads elsewhere is refused, whatever `..`, `.` or absolute key it
-- holds. A name and a `..` behind it, added anywhere to a key, change nothing.
pub path-Below :
    (root : List String) (key : Key) (before rest : List String) (name : String)
    → All Plain root
    → Plain name
    → (((path root key ≡ some (resolve root key)) × Below root (resolve root key))
        ⊎ ((path root key ≡ none) × ¬ Below root (resolve root key)))
      × All Plain (resolve root key)
      × (path root (record key { segments = before ++ name ∷ ".." ∷ rest })
          ≡ path root (record key { segments = before ++ rest }))
unfolding path resolve
path-Below root key before rest name plain named = (
  (elim (Bool-cases (in_parents root (resolve root key))) [
    | inl e ↦ inl (rw e, in_parents-Below root (resolve root key) e)
    | inr e ↦ inr (
      rw e,
      λ (name, names, same). cc (e, ap (in_parents root) same, Below-in_parents root name names),
    )
  ]),
  walk-All (if key.absolute then [] else root) key.segments (start key.absolute),
  ap (λ target. if in_parents root target then some target else none)
      (walk-cancels (if key.absolute then [] else root) before rest name named),
)
  where
    start : (b : Bool) → All Plain (if b then [] else root)
    start true = tt
    start false = plain
