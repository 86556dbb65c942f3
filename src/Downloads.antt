-- ===== src/Downloads.antt =====
-- api/runs.py: `download_artifact`, for a signed-in user of any role. The artifact store is the
-- parameter `get`, and `replace` is the method of Python's `str`.
pub mod Contents
use text.Mathlib.Text.{◌==◌ as str_eq}
use runscope.Prelude.{
  ℕ, String, List, Option, none, some, Bool, ◌&&◌, ◌==◌, first_row, if◌then◌else◌,
}
use runscope.Models.{Uuid, Artifact}
use runscope.Models.Store.{Db, Result, ok, err, app, runtime_error}

-- The response: its body, its media type and the file name of its header.
pub record Download : Type 0 where
  pub content : List ℕ
  pub media_type : String
  pub filename : String

abbrev pub is_artifact : Uuid → Uuid → Artifact → Bool
is_artifact run_id artifact_id a = a.id == artifact_id && a.run_id == run_id

-- except FileNotFoundError
abbrev pub content_or_raise : Result (List ℕ) → Result (List ℕ)
content_or_raise (err (runtime_error e)) =
    if str_eq e "FileNotFoundError"
    then app "artifact_content_missing" 410
    else err (runtime_error e)
content_or_raise result = result

module _ (replace : String → String → String → String) where
  abbrev pub safe_name : String → String
  safe_name name = replace (replace (replace name "\"" "") "\r" "") "\n" ""

  abbrev pub response_of : Artifact → Result (List ℕ) → Result Download
  response_of artifact (err e) = err e
  response_of artifact (ok content) = ok (record {
    content = content;
    media_type = artifact.mime_type;
    filename = safe_name artifact.name;
  })

  module _ (get : Uuid × String → Result (List ℕ)) where
    unfoldable pub download_found : Option Artifact → Result Download
    download_found none = app "artifact_not_found" 404
    download_found (some artifact) =
        response_of artifact (content_or_raise (get artifact.storage_key))

    unfoldable pub download_artifact : Uuid → Uuid → Db → Result Download
    unfolding download_found
    download_artifact run_id artifact_id db =
        download_found (first_row (is_artifact run_id artifact_id) db.artifacts)
