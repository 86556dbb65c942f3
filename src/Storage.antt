-- ===== src/Storage.antt =====
-- storage.py: the bounded retries around the artifact store, and where the local store may write.
-- The store that is retried is the parameter `call`: for the n-th attempt it returns, or raises.
pub mod Retry
pub mod Waits
pub mod Root
pub mod Local
pub mod Transfers
use text.Mathlib.Text.{◌==◌ as str_eq}
use runscope.Prelude.{
  ℕ, zero, suc, ◌+◌, ◌-◌, ◌*◌, ◌^◌, String, List, [], ◌∷◌, Option, none, some, Bool, true, false,
  ◌&&◌, ◌||◌, ltb, if◌then◌else◌,
}
use runscope.Models.Store.{Result, ok, err, artifact_storage_error}

-- RetryingArtifactStore._retry, with the seconds that it sleeps between attempts.
module _ {A : Type 0} (max_attempts base_delay : ℕ) (call : ℕ → Option A) where
  -- The attempt at the head of `range(attempt, max_attempts + 1)`, which has `left` of them.
  unfoldable pub attempts : ℕ → ℕ → Result A × List ℕ
  attempts zero attempt = (err artifact_storage_error, [])
  attempts (suc left) attempt = elim (call attempt) [
    | some a ↦ (ok a, [])
    | none ↦
        let rest = attempts left (attempt + 1) in
        (
          rest.0,
          (if ltb attempt max_attempts then base_delay * 2 ^ (attempt - 1) ∷ rest.1 else rest.1),
        )
  ]

  unfoldable pub retry : Result A × List ℕ
  unfolding attempts
  retry = attempts max_attempts 1

-- The segments of a key, as pathlib reads them: `absolute` where it starts at the root of the
-- file system.
pub record Key : Type 0 where
  pub absolute : Bool
  pub segments : List String

-- The directories from the innermost to the outermost.
abbrev pub walk : List String → List String → List String
walk here [] = here
walk here (s ∷ rest) =
    if str_eq s ".."
    then walk (elim here [ [] ↦ [] | _ ∷ outer ↦ outer ]) rest
    else (if str_eq s "." then walk here rest else walk (s ∷ here) rest)

-- (root / key).resolve(), where the directory holds no symbolic links
unfoldable pub resolve : List String → Key → List String
resolve root key = walk (if key.absolute then [] else root) key.segments

abbrev pub same_path : List String → List String → Bool
same_path [] [] = true
same_path (a ∷ outer) (b ∷ outer') = str_eq a b && same_path outer outer'
same_path _ _ = false

-- root in target.parents
abbrev pub in_parents : List String → List String → Bool
in_parents root [] = false
in_parents root (_ ∷ outer) = same_path root outer || in_parents root outer

-- LocalArtifactStore._path; `none` is the ValueError.
unfoldable pub path : List String → Key → Option (List String)
unfolding resolve
path root key =
    let target = resolve root key in if in_parents root target then some target else none
