-- ===== src/I18n/Negotiation.antt =====
-- The locale of a request, and the supported ones.
use todo_rust.Prelude.{
  All, List, Option, Option-cases, [], and_then, arith, filter_map, inl, inr, none, push_some, refl,
  some, true, unwrap_or, ◌∷◌, ◌≡◌,
}
use todo_rust.I18n.Locale.{
  LanguageIdentifier, LanguageTools, contains, default_locale, first, negotiate,
  negotiate_from_accept_language, parse_supported, supported,
}
use todo_rust.Text.{Text, codes, text_eq}

abbrev pub IsSupported : LanguageIdentifier → Type 0
IsSupported l = contains supported l.language ≡ true

-- What the two crates promise: the text of a supported language parses to a supported identifier,
-- and a negotiation picks from the identifiers that are available or the default.
pub record Negotiates (x : LanguageTools) : Type 1 where
  pub parse_available :
      (t : Text) (l : LanguageIdentifier)
      → contains supported t ≡ true
      → x.parse t ≡ some l
      → IsSupported l
  pub picks :
      (P : LanguageIdentifier → Type 0) (requested available : List LanguageIdentifier)
      (fallback : LanguageIdentifier)
      → All P available
      → P fallback
      → All P (x.negotiate_languages requested available (some fallback))

module _ (x : LanguageTools) (laws : Negotiates x) where
  parse_supported_sound :
      (value : Text) (l : LanguageIdentifier) → parse_supported x value ≡ some l → IsSupported l
  unfolding parse_supported
  parse_supported_sound value l h = ground arith

  from_parse :
      (t : Text) (ls : List LanguageIdentifier)
      → contains supported t ≡ true
      → All IsSupported ls
      → All IsSupported (push_some (x.parse t) ls)
  from_parse t ls h k = elim (Option-cases (x.parse t)) [
    | inl e ↦ rw e k
    | inr (l, e) ↦ rw e (laws.parse_available t l h e, k)
  ]

  available : All IsSupported (filter_map x.parse supported)
  unfolding supported contains text_eq
  available = from_parse (codes "en") _ refl (
      from_parse (codes "es") _ refl
        (from_parse (codes "fr") _ refl (from_parse (codes "de") [] refl tt)))

  first-IsSupported :
      (ls : List LanguageIdentifier)
      → All IsSupported ls
      → IsSupported (unwrap_or (first ls) default_locale)
  unfolding default_locale contains supported text_eq
  first-IsSupported [] h = refl
  first-IsSupported (l ∷ ls) (h, k) = h

  from_header : (header : Text) → IsSupported (negotiate_from_accept_language x header)
  unfolding negotiate_from_accept_language
  from_header header = first-IsSupported _ (
      laws.picks IsSupported (x.parse_accepted_languages header) (filter_map x.parse supported)
        default_locale available (first-IsSupported [] tt))

  or_default : (accept : Option Text) → IsSupported (negotiate x accept none none)
  unfolding negotiate
  or_default none = first-IsSupported [] tt
  or_default (some header) = from_header header

  from_wish :
      (wish : Option Text) (l : LanguageIdentifier)
      → and_then wish (parse_supported x) ≡ some l
      → IsSupported l
  from_wish none l h = cc
  from_wish (some value) l h = parse_supported_sound value l h

  -- If a supported text parses to a supported identifier and a negotiation picks from what is
  -- available or the default, the locale of a request is supported, whatever the request says.
  pub negotiate-IsSupported :
      (accept cookie profile : Option Text) → IsSupported (negotiate x accept cookie profile)
  negotiate-IsSupported accept cookie profile =
      elim (Option-cases (and_then profile (parse_supported x))) [
        | inr (l, e) ↦
            let same : negotiate x accept cookie profile ≡ l = unfold negotiate in ground arith in
            rw same (from_wish profile l e)
        | inl e ↦ elim (Option-cases (and_then cookie (parse_supported x))) [
          | inr (l, k) ↦
              let same : negotiate x accept cookie profile ≡ l = unfold negotiate in ground arith in
              rw same (from_wish cookie l k)
          | inl k ↦
              let same : negotiate x accept cookie profile ≡ negotiate x accept none none =
                unfold negotiate in ground arith in
              rw same (or_default accept)
        ]
      ]
