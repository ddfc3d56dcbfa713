-- ===== src/I18n/Tz.antt =====
-- crates/i18n/src/tz.rs. The time zone database is a parameter; a zone is its name.
use todo_rust.Prelude.{List, Option, if◌then◌else◌, none}
use todo_rust.I18n.Locale.{first}
use todo_rust.Text.{Text, is_empty, trim, trim_start_matches}

pub record Tz : Type 0 where
  pub name : Text

-- `time_tz::timezones::find_by_name`: the zones whose name holds the text.
pub record TzDatabase : Type 0 where
  pub find_by_name : Text → List Tz
  pub utc : Tz

unfoldable pub parse_tz : TzDatabase → Text → Option Tz
parse_tz x name =
    let trimmed = trim_start_matches (trim name) b'+' in
    if is_empty trimmed then none else first (x.find_by_name trimmed)
