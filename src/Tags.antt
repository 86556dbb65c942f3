-- ===== src/Tags.antt =====
-- The tags of runs and experiments: schemas/projects.py, run_execution.py and api/runs.py normalise
-- them alike. The methods of Python's `str` are parameters.
pub mod Normal
use package.text.Mathlib.Text.{◌==◌ as str_eq}
use runscope.Prelude.{
  ℕ, String, List, [], ◌∷◌, map, Bool, true, false, not, ◌||◌, ltb, where_rows, if◌then◌else◌,
}
use runscope.Models.Store.{Result, ok, app}

pub record StrMethods : Type 0 where
  pub strip : String → String
  pub lower : String → String
  pub len : String → ℕ

abbrev pub str_in : String → List String → Bool
str_in s [] = false
str_in s (t ∷ ts) = str_eq t s || str_in s ts

-- list(dict.fromkeys(values)): the first of equal values stays.
unfoldable pub from_keys : List String → List String → List String
from_keys seen [] = []
from_keys seen (t ∷ ts) =
    let rest = from_keys (t ∷ seen) ts in
    let skipped = from_keys seen ts in if str_in t seen then skipped else t ∷ rest

module _ (str : StrMethods) where
  open str use {strip, lower, len}

  -- [tag.strip().lower() for tag in tags if tag.strip()]
  unfoldable pub stripped : List String → List String
  stripped [] = []
  stripped (tag ∷ tags) =
      let rest = stripped tags in if str_eq (strip tag) "" then rest else lower (strip tag) ∷ rest

  unfoldable pub normalize_tags : List String → List String
  unfolding stripped from_keys
  normalize_tags tags = from_keys [] (stripped tags)

  -- any(len(tag) > 40 for tag in normalized)
  unfoldable pub any_long : List String → Bool
  any_long [] = false
  any_long (t ∷ ts) = ltb 40 (len t) || any_long ts
