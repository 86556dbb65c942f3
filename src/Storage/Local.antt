-- ===== src/Storage/Local.antt =====
-- storage.py: LocalArtifactStore.put and get, over a file system of files and directories in which
-- the operating system itself does not fail; and the store that retries another one.
use runscope.Prelude.{
  ℕ, String, List, [], ◌∷◌, Option, none, some, Bool, true, false, ◌||◌, if◌then◌else◌,
}
use runscope.Models.Store.{Result, ok, err, runtime_error}
use runscope.Storage.{Key, same_path, path, retry}

-- Paths from the innermost name outwards; the empty one is the root of the file system.
pub record FileSystem : Type 0 where
  pub files : List (List String × List ℕ)
  pub directories : List (List String)

abbrev pub contents : List String → List (List String × List ℕ) → Option (List ℕ)
contents target [] = none
contents target ((file, content) ∷ rest) =
    let later = contents target rest in if same_path file target then some content else later

abbrev pub path_in : List String → List (List String) → Bool
path_in target [] = false
path_in target (p ∷ rest) = same_path p target || path_in target rest

-- One step of mkdir(parents=True, exist_ok=True): a file in the way is a FileExistsError or a
-- NotADirectoryError.
abbrev pub make_here : List String → Option (List ℕ) → FileSystem → Result FileSystem
make_here target (some content) fs = err (runtime_error "FileExistsError")
make_here target none fs =
    if path_in target fs.directories
    then ok fs
    else ok (record fs { directories = target ∷ fs.directories })

abbrev pub below : List String → Result FileSystem → Result FileSystem
below target (err e) = err e
below target (ok fs) = make_here target (contents target fs.files) fs

unfoldable pub mkdir : List String → FileSystem → Result FileSystem
mkdir [] fs = ok fs
mkdir (name ∷ outer) fs = below (name ∷ outer) (mkdir outer fs)

abbrev pub put_file :
    List String → List ℕ → List (List String × List ℕ) → List (List String × List ℕ)
put_file target content [] = (target, content) ∷ []
put_file target content ((file, old) ∷ rest) =
    let later = put_file target content rest in
    if same_path file target then (file, content) ∷ rest else (file, old) ∷ later

abbrev pub is_directory : List String → FileSystem → Bool
is_directory [] fs = true
is_directory target fs = path_in target fs.directories

abbrev pub parent : List String → List String
parent [] = []
parent (_ ∷ outer) = outer

-- A file is opened for writing in a directory that exists.
abbrev pub write_bytes : List String → List ℕ → FileSystem → Result FileSystem
write_bytes target content fs =
    if is_directory target fs
    then err (runtime_error "IsADirectoryError")
    else if is_directory (parent target) fs
    then ok (record fs { files = put_file target content fs.files })
    else err (runtime_error "FileNotFoundError")

abbrev pub write_in : List String → List ℕ → Result FileSystem → Result FileSystem
write_in target content (err e) = err e
write_in target content (ok fs) = write_bytes target content fs

abbrev pub put_at : List ℕ → Option (List String) → FileSystem → Result FileSystem
put_at content none fs = err (runtime_error "ValueError")
put_at content (some target) fs = write_in target content (mkdir (parent target) fs)

abbrev pub read_bytes : Option (List ℕ) → Bool → Result (List ℕ)
read_bytes (some content) directory = ok content
read_bytes none true = err (runtime_error "IsADirectoryError")
read_bytes none false = err (runtime_error "FileNotFoundError")

abbrev pub get_at : Option (List String) → FileSystem → Result (List ℕ)
get_at none fs = err (runtime_error "ValueError")
get_at (some target) fs = read_bytes (contents target fs.files) (is_directory target fs)

module _ (root : List String) where
  unfoldable pub put : Key → List ℕ → FileSystem → Result FileSystem
  unfolding mkdir
  put key content fs = put_at content (path root key) fs

  unfoldable pub get : Key → FileSystem → Result (List ℕ)
  get key fs = get_at (path root key) fs

-- RetryingArtifactStore.get around a store that answers its n-th attempt, or raises.
unfoldable pub retrying_get : ℕ → ℕ → (ℕ → Option (List ℕ)) → Result (List ℕ)
retrying_get max_attempts base_delay call = (retry max_attempts base_delay call).0
