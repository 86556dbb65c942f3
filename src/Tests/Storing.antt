-- ===== src/Tests/Storing.antt =====
-- The theorems on stored artifacts at concrete data.
use runscope.Prelude.{◌≡◌, refl, String, List, [], ◌∷◌, none, false, first_row, if◌then◌else◌}
use runscope.Models.{Uuid, running}
use runscope.Models.Store.{Db, ok, err, artifact_storage_error}
use runscope.Templates.{GeneratedArtifact}
use runscope.Execution.{artifact_row}
use runscope.Storage.{Key, path, resolve, same_path}
use runscope.Storage.Local.{FileSystem, put, get, retrying_get}
use runscope.Storage.Transfers.{put-get}
use runscope.Downloads.{download_artifact}
use runscope.Downloads.Contents.{put-download_artifact, download_artifact-failing}
use runscope.Tests.Sample.{sample, external}

abbrev root : List String
root = "artifacts" ∷ "srv" ∷ []

abbrev key_of : Uuid × String → Key
key_of (run_id, name) = record { absolute = false; segments = "run" ∷ name ∷ [] }

-- An artifact of another run is there.
abbrev disk : FileSystem
disk = record {
  files = ("a.json" ∷ "other" ∷ root, 7 ∷ []) ∷ [];
  directories = ("other" ∷ root) ∷ root ∷ ("srv" ∷ []) ∷ [];
}

abbrev other_key : Key
other_key = record { absolute = false; segments = "other" ∷ "a.json" ∷ [] }

put-get_example :
    (fs' : FileSystem) × (put root (key_of (7, "m.json")) (1 ∷ 2 ∷ []) disk ≡ ok fs')
    × (get root (key_of (7, "m.json")) fs' ≡ ok (1 ∷ 2 ∷ []))
    × (get root other_key fs'
        ≡ ok (
            if same_path ("m.json" ∷ "run" ∷ root) ("a.json" ∷ "other" ∷ root)
            then 1 ∷ 2 ∷ []
            else 7 ∷ []))
unfolding path get resolve
put-get_example =
    put-get root (key_of (7, "m.json")) other_key ("m.json" ∷ "run" ∷ root)
      ("a.json" ∷ "other" ∷ root) (1 ∷ 2 ∷ []) (7 ∷ []) disk refl ((refl, (refl, (refl, tt))), refl)
      refl refl

abbrev generated : GeneratedArtifact
generated = record { name = "m.json"; mime_type = "application/json"; content = 1 ∷ 2 ∷ [] }

abbrev with_artifact : Db
with_artifact = record (sample running) {
  artifacts = artifact_row external 200 7 generated 30 ∷ [];
}

abbrev replace : String → String → String → String
replace s old new = s

put-download_artifact_example :
    (fs' : FileSystem) × (put root (key_of (7, "m.json")) (1 ∷ 2 ∷ []) disk ≡ ok fs')
    × (download_artifact replace (λ key. get root (key_of key) fs') 7 30 with_artifact
        ≡ ok
            (record { content = 1 ∷ 2 ∷ []; media_type = "application/json"; filename = "m.json" }))
unfolding path resolve first_row
put-download_artifact_example =
    put-download_artifact replace 7 30 with_artifact root key_of external 200 generated
      ("m.json" ∷ "run" ∷ root) disk refl ((refl, (refl, (refl, tt))), refl) refl

download_artifact-failing_example :
    download_artifact replace (λ key. retrying_get 3 1 (λ n. none)) 7 30 with_artifact
    ≡ err artifact_storage_error
unfolding first_row
download_artifact-failing_example =
    download_artifact-failing replace 7 30 with_artifact 3 1 (λ key n. none)
      (artifact_row external 200 7 generated 30) refl (λ n. refl)
