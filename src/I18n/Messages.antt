-- ===== src/I18n/Messages.antt =====
-- crates/i18n/src/messages.rs: a message by its id, or the id itself. The Fluent loader is a
-- parameter. The counter that a miss increments is returned beside the text.
use todo_rust.Prelude.{List, Option, [], none, some, ℕ, ◌∷◌}
use todo_rust.I18n.Locale.{LanguageIdentifier}
use todo_rust.Metrics.{Metric, i18n_missing_key_total}
use todo_rust.Prelude.Exec.{Result, map_err_result}
use todo_rust.Text.{Text}

pub data FluentValue : Type 0 where
  string : Text → FluentValue
  number : ℕ → FluentValue

abbrev pub FluentArgs : Type 0
FluentArgs = List (Text × FluentValue)

pub record Locales : Type 0 where
  pub try_lookup_complete : LanguageIdentifier → Text → Option FluentArgs → Option Text

pub data LocalesError : Type 0 where
  build : Text → LocalesError

-- `loader` is the outcome of building the loader of a directory.
unfoldable pub from_dir : (Text → Result Text Locales) → Text → Result LocalesError Locales
from_dir loader dir = map_err_result build (loader dir)

unfoldable pub lookup : Locales → LanguageIdentifier → Text → Option FluentArgs → Text × List Metric
lookup x locale id args = elim (x.try_lookup_complete locale id args) [
  | some s ↦ (s, [])
  | none ↦ (id, i18n_missing_key_total locale.language id ∷ [])
]
