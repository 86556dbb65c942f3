-- ===== src/Downloads/Contents.antt =====
-- api/runs.py with storage.py and run_execution.py: what an execution uploads is what a download
-- returns, and what a download answers where the store has nothing.
use runscope.Prelude.{ℕ, zero, suc, ◌+◌, ◌≡◌, refl, String, List, Option, none, some, first_row}
use runscope.Models.{Uuid, Timestamp, Artifact}
use runscope.Models.Store.{Db, ok, err, artifact_storage_error}
use runscope.Templates.{External, GeneratedArtifact}
use runscope.Execution.{artifact_row}
use runscope.Storage.{Key, path, attempts, retry}
use runscope.Storage.Local.{FileSystem, put, get, retrying_get}
use runscope.Storage.Transfers.{Free, put-own}
use runscope.Downloads.{is_artifact, safe_name, download_found, download_artifact}

module _ (replace : String → String → String → String) (run_id id : Uuid) (db : Db) where
  -- Where the key of a generated artifact leads to a free place below the root of the local store,
  -- the upload succeeds, and the download of the artifact's row returns the content and the media
  -- type that were generated.
  pub put-download_artifact :
      (root : List String) (key_of : Uuid × String → Key) (external : External) (now : Timestamp)
      (generated : GeneratedArtifact) (target : List String) (fs : FileSystem)
      → path root (key_of (run_id, generated.name)) ≡ some target
      → Free target fs
      → first_row (is_artifact run_id id) db.artifacts
        ≡ some (artifact_row external now run_id generated id)
      → (fs' : FileSystem) × (put root (key_of (run_id, generated.name)) generated.content fs
          ≡ ok fs')
        × (download_artifact replace (λ key. get root (key_of key) fs') run_id id db
            ≡ ok (record {
              content = generated.content;
              media_type = generated.mime_type;
              filename = safe_name replace generated.name;
            }))
  unfolding download_artifact download_found
  put-download_artifact root key_of external now generated target fs leads free found =
      let (fs', written, own, files) =
        put-own root (key_of (run_id, generated.name)) target generated.content fs leads free in
      (fs', written, rw (found, own) refl)

  attempts-fail :
      (max_attempts base_delay : ℕ) (call : ℕ → Option (List ℕ)) (left attempt : ℕ)
      → ((n : ℕ) → call n ≡ none)
      → (attempts max_attempts base_delay call left attempt).0 ≡ err artifact_storage_error
  unfolding attempts
  attempts-fail max_attempts base_delay call zero attempt fails = refl
  attempts-fail max_attempts base_delay call (suc left) attempt fails =
      rw (fails attempt, attempts)
        (attempts-fail max_attempts base_delay call left (attempt + 1) fails)

  -- Where the store behind the retries fails every time, as it does for an object that is gone, the
  -- download of an existing artifact raises ArtifactStorageError, which is no answer of 410.
  pub download_artifact-failing :
      (max_attempts base_delay : ℕ) (call : Uuid × String → ℕ → Option (List ℕ))
      (artifact : Artifact)
      → first_row (is_artifact run_id id) db.artifacts ≡ some artifact
      → ((n : ℕ) → call artifact.storage_key n ≡ none)
      → download_artifact replace
          (λ key. retrying_get max_attempts base_delay (call key))
          run_id
          id
          db
        ≡ err artifact_storage_error
  unfolding download_artifact download_found retrying_get retry
  download_artifact-failing max_attempts base_delay call artifact found fails =
      rw
        (
          found,
          attempts-fail max_attempts base_delay (call artifact.storage_key) max_attempts 1 fails,
        )
        refl
