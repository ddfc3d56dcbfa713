-- ===== src/I18n/Helpers.antt =====
-- crates/i18n/src/minijinja.rs: the globals `t` and `datetime` of the templates. The engine is a
-- parameter: a helper is given what `state.lookup` finds and the keyword arguments.
use todo_rust.Prelude.{
  List, Option, [], and_then, find, if◌then◌else◌, map, map_option, none, some, unwrap_or, ℕ, ◌++◌,
  ◌==◌, ◌∷◌,
}
use todo_rust.Domain.{Time}
use todo_rust.I18n.Datetime.{DateTimeTools, FormatterCache, format_datetime, parse_style}
use todo_rust.I18n.Locale.{LanguageIdentifier, LanguageTools, default_locale}
use todo_rust.I18n.Messages.{FluentArgs, FluentValue, Locales, lookup, number, string}
use todo_rust.I18n.Tz.{Tz, TzDatabase, parse_tz}
use todo_rust.Metrics.{Metric}
use todo_rust.Prelude.Exec.{Result, err, ok}
use todo_rust.Text.{Text, codes, text_eq}

-- A value of the template engine, as far as the helpers look into it.
pub data Value : Type 0 where
  str : Text → Value
  int : ℕ → Value
  other : Text → Value

pub data JinjaError : Type 0 where
  invalid_operation : Text → JinjaError

unfoldable pub as_str : Value → Option Text
as_str (str s) = some s
as_str (int n) = none
as_str (other s) = none

-- The variables of the template's state.
abbrev pub Lookup : Type 0
Lookup = Text → Option Value

unfoldable pub current_locale : LanguageTools → Lookup → LanguageIdentifier
unfolding as_str
current_locale x state =
    unwrap_or (and_then (and_then (state (codes "_locale")) as_str) x.parse) default_locale

unfoldable pub current_tz : TzDatabase → Lookup → Tz
unfolding as_str
current_tz x state = unwrap_or (and_then (and_then (state (codes "_tz")) as_str) (parse_tz x)) x.utc

unfoldable pub to_fluent : Value → FluentValue
to_fluent (str s) = string s
to_fluent (int n) = number n
to_fluent (other s) = string s

unfoldable pub kwargs_to_args : List (Text × Value) → Option FluentArgs
unfolding to_fluent
kwargs_to_args [] = none
kwargs_to_args (kwarg ∷ kwargs) = some (map (λ (k, v). (k, to_fluent v)) (kwarg ∷ kwargs))

-- The global `t`: the text of a message, and the counter of a missing one.
unfoldable pub t_helper :
    LanguageTools → Locales → Lookup → Text → List (Text × Value) → Text × List Metric
t_helper x locales state id kwargs =
    lookup locales (current_locale x state) id (kwargs_to_args kwargs)

unfoldable pub attr_char : ℕ → Text
attr_char c =
    if c == b'&'
    then codes "&amp;"
    else if c == b'<'
    then codes "&lt;"
    else if c == b'>'
    then codes "&gt;"
    else if c == 34
    then codes "&quot;"
    else if c == 39
    then codes "&#39;"
    else c ∷ []

unfoldable pub text_char : ℕ → Text
text_char c =
    if c == b'&'
    then codes "&amp;"
    else if c == b'<'
    then codes "&lt;"
    else if c == b'>'
    then codes "&gt;"
    else c ∷ []

-- `out.push_str` for each character, in order.
unfoldable pub escape_attr : Text → Text
unfolding attr_char
escape_attr [] = []
escape_attr (c ∷ s) = attr_char c ++ escape_attr s

unfoldable pub escape_text : Text → Text
unfolding text_char
escape_text [] = []
escape_text (c ∷ s) = text_char c ++ escape_text s

-- RFC 3339, read and printed by the `time` crate.
pub record Rfc3339 : Type 0 where
  pub parse : Text → Result Text Time
  pub format : Time → Result Text Text

abbrev lift_result : {E F A B : Type 0} → Result E A → (E → F) → (A → Result F B) → Result F B
lift_result (ok a) g f = f a
lift_result (err e) g f = err (g e)

unfoldable pub value_to_offset_datetime : Rfc3339 → Value → Result JinjaError Time
unfolding as_str
value_to_offset_datetime x value = elim (as_str value) [
  | none ↦ err (invalid_operation (codes "datetime expects a string"))
  | some s ↦ lift_result (x.parse s) invalid_operation (λ t. ok t)
]

-- `<time datetime="…" data-style="…">…</time>`
unfoldable pub time_element : Text → Text → Text → Text
time_element iso style_str inner =
    codes "<time datetime=\""
    ++ (escape_attr iso
        ++ (codes "\" data-style=\""
            ++ (escape_attr style_str ++ (codes "\">" ++ (escape_text inner ++ codes "</time>")))))

abbrev find_kwarg : Text → List (Text × Value) → Option Value
find_kwarg name kwargs = map_option (λ e. e.1) (find (λ e. text_eq e.0 name) kwargs)

-- `kwargs.get("style").unwrap_or_else(|_| "medium".into())`
unfoldable pub style_arg : List (Text × Value) → Text
unfolding as_str
style_arg kwargs = unwrap_or (and_then (find_kwarg (codes "style") kwargs) as_str) (codes "medium")

module _ {F D L : Type 0} (languages : LanguageTools) (zones : TzDatabase) (rfc : Rfc3339)
    (x : DateTimeTools F D L) where
  -- The global `datetime`, with the formatters of the thread before and after.
  unfoldable pub datetime_helper :
      Lookup
      → Value
      → List (Text × Value)
      → FormatterCache F
      → Result JinjaError Text × FormatterCache F
  datetime_helper state value kwargs cache =
      let locale = current_locale languages state in
      let tz = current_tz zones state in
      let style_str = style_arg kwargs in
      let style = parse_style style_str in
      elim (value_to_offset_datetime rfc value) [
        | err e ↦ (err e, cache)
        | ok dt ↦ elim (rfc.format dt) [
          | err e ↦ (err (invalid_operation e), cache)
          | ok iso ↦
              let (inner, cache') = format_datetime x dt locale tz style cache in
              (ok (time_element iso style_str inner), cache')
        ]
      ]
