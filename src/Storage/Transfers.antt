-- ===== src/Storage/Transfers.antt =====
-- storage.py: what the local store has written, it reads.
use runscope.Prelude.{
  ℕ, ◌<◌, ◌≡◌, refl, sym, ap, ◌∙◌, subst, String, List, [], ◌∷◌, Option, none, some, Bool, true,
  false, length, inl, inr, Bool-cases, arith, if◌then◌else◌,
}
use runscope.Models.Store.{ok}
use runscope.Storage.{Key, same_path, path}
use runscope.Storage.Root.{same_path-equal, same_path_refl}
use runscope.Storage.Local.{
  FileSystem, contents, path_in, mkdir, put_file, is_directory, parent, put_at, read_bytes, get_at,
  put, get,
}

-- No file stands where the path has a directory.
abbrev pub Clear : List String → FileSystem → Type 0
Clear [] fs = Unit {0}
Clear (name ∷ outer) fs = (contents (name ∷ outer) fs.files ≡ none) × Clear outer fs

-- What mkdir leaves: the same files, the path as a directory, and the old directories with others
-- that are no longer than the path.
abbrev pub Made : List String → FileSystem → FileSystem → Type 0
Made target fs fs' =
    (fs'.files ≡ fs.files)
    × (is_directory target fs' ≡ true)
    × ((other : List String)
        → length target < length other
        → path_in other fs'.directories ≡ path_in other fs.directories)

same_path-length : (a b : List String) → same_path a b ≡ true → length a ≡ length b
same_path-length a b h = ap length (same_path-equal a b h)

same_path-meets :
    (a b c : List String) → same_path a c ≡ true → same_path b c ≡ true → same_path a b ≡ true
same_path-meets a b c ac bc =
    subst (λ d. same_path a d ≡ true) (same_path-equal a c ac ∙ sym (same_path-equal b c bc))
      (same_path_refl a)

-- A longer path is another one.
shorter : (a b : List String) → length a < length b → same_path a b ≡ false
shorter a b longer = elim (Bool-cases (same_path a b)) [
  | inl e ↦ ground (arith, longer, same_path-length a b e)
  | inr e ↦ e
]

contents-put_file :
    (target other : List String) (content : List ℕ) (files : List (List String × List ℕ))
    → contents other (put_file target content files)
      ≡ (if same_path target other then some content else contents other files)
contents-put_file target other content [] = refl
contents-put_file target other content ((file, old) ∷ rest) =
    elim (Bool-cases (same_path file target)) [
      | inl e ↦
          let same = same_path-equal file target e in
          rw (e, same)
            (elim (Bool-cases (same_path target other)) [ inl t ↦ rw t refl | inr t ↦ rw t refl ])
      | inr e ↦
          rw (e, contents-put_file target other content rest)
            (elim (Bool-cases (same_path target other)) [
              | inl t ↦ (elim (Bool-cases (same_path file other)) [
                | inl f ↦ cc (e, same_path-meets file target other f t)
                | inr f ↦ rw (t, f) refl
              ])
              | inr t ↦ rw t refl
            ])
    ]

-- mkdir on a way without files.
mkdir-Made :
    (target : List String) (fs : FileSystem)
    → Clear target fs
    → (fs' : FileSystem) × (mkdir target fs ≡ ok fs') × Made target fs fs'
unfolding mkdir
mkdir-Made [] fs h = (fs, refl, (refl, refl, λ other longer. refl))
mkdir-Made (name ∷ outer) fs h =
    let (fs1, made, kept) = mkdir-Made outer fs h.1 in
    let free : contents (name ∷ outer) fs1.files ≡ none =
      ap (contents (name ∷ outer)) kept.0 ∙ h.0 in
    rw (made, free)
      (elim (Bool-cases (path_in (name ∷ outer) fs1.directories)) [
        | inl e ↦
            rw e (fs1, refl, (kept.0, e, λ other longer. kept.2 other (omega (arith, longer))))
        | inr e ↦ rw e (
          record fs1 { directories = (name ∷ outer) ∷ fs1.directories },
          refl,
          (
            kept.0,
            rw (same_path_refl (name ∷ outer)) refl,
            λ other longer.
                rw (shorter (name ∷ outer) other longer) (kept.2 other (omega (arith, longer))),
          ),
        )
      ])

-- No file stands in the way of the target's directory, and the target is no directory itself.
abbrev pub Free : List String → FileSystem → Type 0
Free target fs = Clear (parent target) fs × (is_directory target fs ≡ false)

put_at-files :
    (target : List String) (content : List ℕ) (fs : FileSystem)
    → Free target fs
    → (fs' : FileSystem) × (put_at content (some target) fs ≡ ok fs')
      × (fs'.files ≡ put_file target content fs.files)
unfolding mkdir
put_at-files [] content fs free = cc free.1
put_at-files (name ∷ outer) content fs free =
    let (fs1, made, kept) = mkdir-Made outer fs free.0 in
    let apart : path_in (name ∷ outer) fs1.directories ≡ false =
      kept.2 (name ∷ outer) (omega arith) ∙ free.1 in
    (
      record fs1 { files = put_file (name ∷ outer) content fs1.files },
      rw (made, apart, kept.1) refl,
      ap (put_file (name ∷ outer) content) kept.0,
    )

read_bytes-content :
    (o : Option (List ℕ)) (directory : Bool) (content : List ℕ)
    → read_bytes o directory ≡ ok content
    → o ≡ some content
read_bytes-content none true content h = cc
read_bytes-content none false content h = cc
read_bytes-content (some found) directory content h = cc

module _ (root : List String) where
  pub put-own :
      (key : Key) (target : List String) (content : List ℕ) (fs : FileSystem)
      → path root key ≡ some target
      → Free target fs
      → (fs' : FileSystem) × (put root key content fs ≡ ok fs')
        × (get root key fs' ≡ ok content)
        × (fs'.files ≡ put_file target content fs.files)
  unfolding put get mkdir
  put-own key target content fs leads free =
      let (fs', written, files) = put_at-files target content fs free in
      let own : contents target fs'.files ≡ some content =
        ap (contents target) files
        ∙ contents-put_file target target content fs.files
        ∙ rw (same_path_refl target) refl in
      (fs', rw leads written, rw (leads, own) refl, files)

  -- Where a key leads to a free place below the root, `put` succeeds, `get` of the key then returns
  -- the content, and `get` of any other place returns what it returned before, where that was content.
  pub put-get :
      (key other : Key) (target place : List String) (content old : List ℕ) (fs : FileSystem)
      → path root key ≡ some target
      → Free target fs
      → path root other ≡ some place
      → get root other fs ≡ ok old
      → (fs' : FileSystem) × (put root key content fs ≡ ok fs')
        × (get root key fs' ≡ ok content)
        × (get root other fs' ≡ ok (if same_path target place then content else old))
  unfolding put get mkdir
  put-get key other target place content old fs leads free there had =
      let (fs', written, own, files) = put-own key target content fs leads free in
      let after : contents place fs'.files
          ≡ (if same_path target place then some content else contents place fs.files) =
        ap (contents place) files ∙ contents-put_file target place content fs.files in
      let before : contents place fs.files ≡ some old =
        read_bytes-content _ (is_directory place fs) old
          (subst (λ o. get_at o fs ≡ ok old) there had) in
      (
        fs',
        written,
        own,
        rw (there, after, before)
            (elim (Bool-cases (same_path target place)) [ inl e ↦ rw e refl | inr e ↦ rw e refl ]),
      )
