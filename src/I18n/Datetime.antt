-- ===== src/I18n/Datetime.antt =====
-- crates/i18n/src/datetime.rs: formatting of an instant, with the formatters of the thread kept in
-- a cache. ICU, `time` and `time_tz` are a parameter: `F` are its formatters, `D` its dates and `L`
-- the instants in a time zone.
use todo_rust.Prelude.{
  Bool, List, Option, [], false, find, if◌then◌else◌, map_option, none, some, true, unwrap_or, ◌&&◌,
  ◌++◌, ◌∷◌,
}
use todo_rust.Domain.{Time}
use todo_rust.I18n.Locale.{LanguageIdentifier}
use todo_rust.I18n.Tz.{Tz}
use todo_rust.Text.{Text, codes, text_eq}

pub data DateTimeStyle : Type 0 where
  style_short style_medium style_long : DateTimeStyle

pub data Length : Type 0 where
  length_short length_medium length_long : Length

pub record DateTimeTools (F D L : Type 0) : Type 0 where
  pub to_timezone : Time → Tz → L
  pub try_new_iso_datetime : L → Option D
  pub parse_locale : Text → Option Text
  pub fallback_locale : Text
  -- date and time lengths
  pub try_new : Text → Length × Length → Option F
  pub format_to_string : F → D → Option Text
  pub format_rfc3339 : L → Option Text

unfoldable pub parse_style : Text → DateTimeStyle
parse_style s =
    if text_eq s (codes "short")
    then style_short
    else if text_eq s (codes "long")
    then style_long
    else style_medium

unfoldable pub style_length : DateTimeStyle → Length × Length
style_length style_short = (length_short, length_short)
style_length style_medium = (length_medium, length_short)
style_length style_long = (length_long, length_short)

unfoldable pub style_eq : DateTimeStyle → DateTimeStyle → Bool
style_eq style_short style_short = true
style_eq style_medium style_medium = true
style_eq style_long style_long = true
style_eq _ _ = false

-- `FORMATTER_CACHE`, by the text of the locale and the style.
abbrev pub FormatterCache : Type 0 → Type 0
FormatterCache F = List (Text × DateTimeStyle × F)

module _ {F D L : Type 0} (x : DateTimeTools F D L) where
  unfoldable pub get_formatter : Text → DateTimeStyle → FormatterCache F → Option F
  get_formatter key style cache =
      map_option (λ e. e.2) (find (λ e. text_eq e.0 key && style_eq e.1 style) cache)

  unfoldable pub iso_fallback : L → Text
  iso_fallback local = unwrap_or (x.format_rfc3339 local) (0x2014 ∷ [])

  unfoldable pub locale_text : LanguageIdentifier → Text
  locale_text locale = locale.to_string ++ codes "-u-ca-gregory"

  -- `DateTimeFormatter::try_new`, for the locale or for English where its text does not parse.
  unfoldable pub build_formatter : Text → DateTimeStyle → Option F
  unfolding style_length
  build_formatter locale_str style =
      x.try_new (unwrap_or (x.parse_locale locale_str) x.fallback_locale) (style_length style)

  unfoldable pub format_with : F → L → Text
  unfolding iso_fallback
  format_with formatter local = elim (x.try_new_iso_datetime local) [
    | some dt ↦ unwrap_or (x.format_to_string formatter dt) (iso_fallback local)
    | none ↦ iso_fallback local
  ]

  -- The branch of a key that the cache lacks.
  unfoldable pub format_uncached :
      Text → DateTimeStyle → L → FormatterCache F → Text × FormatterCache F
  unfolding build_formatter format_with iso_fallback
  format_uncached key style local cache = elim (build_formatter key style) [
    | some formatter ↦ (format_with formatter local, (key, style, formatter) ∷ cache)
    | none ↦ (iso_fallback local, cache)
  ]

  unfoldable pub format_datetime :
      Time → LanguageIdentifier → Tz → DateTimeStyle → FormatterCache F → Text × FormatterCache F
  unfolding locale_text get_formatter format_with format_uncached
  format_datetime value locale tz style cache =
      let local = x.to_timezone value tz in
      let key = locale_text locale in
      elim (get_formatter key style cache) [
        | some formatter ↦ (format_with formatter local, cache)
        | none ↦ format_uncached key style local cache
      ]
