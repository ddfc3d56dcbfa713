-- ===== src/I18n/FormatterReuse.antt =====
-- The formatters that are kept (crates/i18n/src/datetime.rs), and the text without them.
use todo_rust.Prelude.{
  All, Bool-cases, Option-cases, [], and_parts, arith, inl, inr, some, true, ◌&&◌, ◌∙◌, ◌∷◌, ◌≡◌,
}
use todo_rust.Domain.{Time}
use todo_rust.I18n.Datetime.{
  DateTimeStyle, DateTimeTools, FormatterCache, build_formatter, format_datetime, format_uncached,
  get_formatter, locale_text, style_eq,
}
use todo_rust.I18n.Locale.{LanguageIdentifier}
use todo_rust.I18n.Tz.{Tz}
use todo_rust.Text.{Text, text_eq}
use todo_rust.Text.Laws.{text_eq_iff}

module _ {F D L : Type 0} (x : DateTimeTools F D L) where
  -- Every formatter in the cache is the one that its key and style make.
  abbrev pub Sound : FormatterCache F → Type 0
  Sound = All (λ (key, style, f). build_formatter x key style ≡ some f)

  style_eq_sound : (a b : DateTimeStyle) → style_eq a b ≡ true → a ≡ b
  unfolding style_eq
  style_eq_sound a b h = ground arith

  get_formatter-Sound :
      (key : Text) (style : DateTimeStyle) (cache : FormatterCache F) (f : F)
      → Sound cache
      → get_formatter x key style cache ≡ some f
      → build_formatter x key style ≡ some f
  unfolding get_formatter
  get_formatter-Sound key style [] f h k = cc
  get_formatter-Sound key style ((key', style', g) ∷ cache) f (p, h) k =
      elim (Bool-cases (text_eq key' key && style_eq style' style)) [
        | inl same ↦
            let (k', s') = and_parts (text_eq key' key) (style_eq style' style) same in
            let e = (text_eq_iff key' key).0 k' in
            let d = style_eq_sound style' style s' in rw (← e, ← d) (p ∙ (rw same at k))
        | inr another ↦ get_formatter-Sound key style cache f h (rw another at k)
      ]

  -- If every formatter in the cache is the one that its key and style make, a text is the one that
  -- an empty cache gives, and the cache stays so.
  pub format_datetime_lem :
      (value : Time) (locale : LanguageIdentifier) (tz : Tz) (style : DateTimeStyle)
      (cache : FormatterCache F)
      → Sound cache
      → ((format_datetime x value locale tz style cache).0
          ≡ (format_datetime x value locale tz style []).0)
        × Sound (format_datetime x value locale tz style cache).1
  unfolding format_datetime get_formatter
  format_datetime_lem value locale tz style cache h =
      let key = locale_text x locale in
      elim (Option-cases (get_formatter x key style cache)) [
        | inr (f, e) ↦
            let built = get_formatter-Sound key style cache f h e in
            (unfold format_uncached in ground arith, rw (format_datetime, e) h)
        | inl e ↦ elim (Option-cases (build_formatter x key style)) [
          | inl none' ↦
              (unfold format_uncached in ground arith, unfold format_uncached in ground arith)
          | inr (f, built) ↦
              (unfold format_uncached in ground arith, unfold format_uncached in ground arith)
        ]
      ]
