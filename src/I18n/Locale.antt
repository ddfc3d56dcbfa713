-- ===== src/I18n/Locale.antt =====
-- crates/i18n/src/locale.rs: which locale a request is answered in. The crates `unic_langid` and
-- `fluent_langneg` are a parameter.
use todo_rust.Prelude.{
  Bool, List, Option, [], and_then, any, filter_map, if◌then◌else◌, none, some, unwrap_or, ◌∷◌,
}
use todo_rust.Text.{Text, codes, text_eq}

-- A language identifier, by what the program reads of it: its language subtag and its whole text.
pub record LanguageIdentifier : Type 0 where
  pub language : Text
  pub to_string : Text

pub record LanguageTools : Type 0 where
  pub parse : Text → Option LanguageIdentifier
  pub parse_accepted_languages : Text → List LanguageIdentifier
  -- requested, available, default
  pub negotiate_languages :
      List LanguageIdentifier
      → List LanguageIdentifier
      → Option LanguageIdentifier
      → List LanguageIdentifier

unfoldable pub supported : List Text
supported = codes "en" ∷ codes "es" ∷ codes "fr" ∷ codes "de" ∷ []

-- `langid!("en")`
unfoldable pub default_locale : LanguageIdentifier
default_locale = record { language = codes "en"; to_string = codes "en" }

abbrev pub first : {A : Type 0} → List A → Option A
first [] = none
first (a ∷ l) = some a

unfoldable pub contains : List Text → Text → Bool
contains texts t = any (λ s. text_eq s t) texts

module _ (x : LanguageTools) where
  unfoldable pub parse_supported : Text → Option LanguageIdentifier
  parse_supported value =
      and_then (x.parse value)
        (λ langid. if contains supported langid.language then some langid else none)

  -- The four texts of `SUPPORTED` parse (one that does not would be a panic, and is left out here).
  unfoldable pub negotiate_from_accept_language : Text → LanguageIdentifier
  negotiate_from_accept_language header =
      let requested = x.parse_accepted_languages header in
      let chosen =
        x.negotiate_languages requested (filter_map x.parse supported) (some default_locale) in
      unwrap_or (first chosen) default_locale

  unfoldable pub negotiate : Option Text → Option Text → Option Text → LanguageIdentifier
  unfolding parse_supported
  negotiate accept_lang cookie profile = elim (and_then profile parse_supported) [
    | some p ↦ p
    | none ↦ elim (and_then cookie parse_supported) [
      | some c ↦ c
      | none ↦ elim accept_lang [
        | some al ↦ negotiate_from_accept_language al
        | none ↦ default_locale
      ]
    ]
  ]
