-- ===== src/App/Middleware/Cookies.antt =====
-- crates/app/src/middleware/i18n.rs: the cookies, and the locale and time zone of a request.
pub mod RoundTrip
use todo_rust.Prelude.{List, Option, [], and_then, if◌then◌else◌, is_some, none, some, ◌++◌, ◌∷◌}
use todo_rust.App.Http.{Headers, Response, get_header}
use todo_rust.App.World.{External}
use todo_rust.I18n.Locale.{LanguageIdentifier, negotiate}
use todo_rust.I18n.Tz.{Tz, TzDatabase, parse_tz}
use todo_rust.Metrics.{Metric, i18n_invalid_tz_total, i18n_locale_total}
use todo_rust.Text.{Text, codes, split, strip_prefix, trim}

abbrev Found : Type 0
Found = Option Text × Option Text

-- One round of the loop over the cookies.
unfoldable pub read_chunk : Text → Found → Found
read_chunk chunk (locale, tz) = elim (strip_prefix chunk (codes "locale=")) [
  | some rest ↦ (some rest, tz)
  | none ↦ elim (strip_prefix chunk (codes "tz=")) [
    | some rest ↦ (locale, some rest)
    | none ↦ (locale, tz)
  ]
]

unfoldable pub read_chunks : List Text → Found → Found
unfolding read_chunk
read_chunks [] found = found
read_chunks (chunk ∷ chunks) found = read_chunks chunks (read_chunk (trim chunk) found)

unfoldable pub read_cookies : (Text → Option Text) → Headers → Found
unfolding read_chunks
read_cookies to_str headers = elim (and_then (get_header (codes "cookie") headers) to_str) [
  | some cookie_hdr ↦ read_chunks (split cookie_hdr b';') (none, none)
  | none ↦ (none, none)
]

-- A time zone that does not parse is counted, and UTC taken.
unfoldable pub request_tz : TzDatabase → Option Text → Tz × List Metric
request_tz zones tz_str = elim (and_then tz_str (parse_tz zones)) [
  | some tz ↦ (tz, [])
  | none ↦ (zones.utc, if is_some tz_str then i18n_invalid_tz_total ∷ [] else [])
]

module _ {R S : Type 0} (x : External R S) where
  -- `next` is the rest of the service, which reads the two extensions; `count_all` counts in its
  -- state.
  unfoldable pub i18n_middleware :
      {W : Type 0}
      → (List Metric → W → W)
      → Headers
      → (LanguageIdentifier → Tz → W → Response × W)
      → W
      → Response × W
  unfolding read_cookies request_tz
  i18n_middleware count_all headers next w =
      let (locale_str, tz_str) = read_cookies x.http.to_str headers in
      let locale =
        negotiate x.languages
          (and_then (get_header (codes "accept-language") headers) x.http.to_str) locale_str none in
      let (tz, counted) = request_tz x.zones tz_str in
      next locale tz (count_all (counted ++ i18n_locale_total locale.language ∷ []) w)
