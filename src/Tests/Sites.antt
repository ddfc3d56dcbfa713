-- ===== src/Tests/Sites.antt =====
-- Redirects, assets, texts, the configuration, headers, spans and stories.
use todo_rust.Prelude.{
  All-append, All-select, List, [], any, arith, length, none, push_some, refl, select, some, true,
  ℕ, ◌++◌, ◌↔◌, ◌∷◌, ◌≡◌,
}
use todo_rust.App.Routes.Auth.{safe_next}
use todo_rust.App.Routes.Auth.Redirects.{IsSingleSlash, safe_next_iff}
use todo_rust.App.StaticFiles.{Files}
use todo_rust.Assets.{
  Hasher, hash_file, hash_reads, hashed, hex_byte, hex_digit, hex_short, inject_hash,
  is_precompressed, map_get, map_insert, map_remove, production, resolve, resolve_hashed_request,
  walk_file, walk_files, walk_root,
}
use todo_rust.Assets.RoundTrip.{GivesBytes, resolve_hashed_request-resolve}
use todo_rust.FileTree.{Node, dir, end, entry, path_join, regular, rel_join}
use todo_rust.I18n.Datetime.{DateTimeTools, build_formatter, format_datetime, style_long}
use todo_rust.I18n.Escaping.{IsInert, escape_attr_lem, unescape}
use todo_rust.I18n.FormatterReuse.{Sound, format_datetime_lem}
use todo_rust.I18n.Helpers.{escape_attr}
use todo_rust.I18n.Locale.{LanguageTools, default_locale, negotiate}
use todo_rust.I18n.Negotiation.{IsSupported, Negotiates, negotiate-IsSupported}
use todo_rust.Observability.{bare}
use todo_rust.Observability.Stack.{leaf, run, run-AllKnown, within}
use todo_rust.Text.{Text, codes, ends_with, replace, rsplit_once, text_eq}

safe_next_example :
    (safe_next (some (codes "/todos")) ≡ some (codes "/todos"))
    ↔ (IsSingleSlash (codes "/todos") × (codes "/todos" ≡ codes "/todos"))
safe_next_example = safe_next_iff (codes "/todos") (codes "/todos")

escape_attr_example :
    IsInert (escape_attr (codes "<a & b>"))
    × (unescape (length (escape_attr (codes "<a & b>"))) (escape_attr (codes "<a & b>"))
        ≡ codes "<a & b>")
escape_attr_example = escape_attr_lem (codes "<a & b>")

-- A hash function whose state is the bytes so far and whose digest is four zeros.
abbrev hasher : Hasher (List ℕ)
hasher = record { new = []; update = λ h bytes. h ++ bytes; finalize = λ h. 0 ∷ 0 ∷ 0 ∷ 0 ∷ [] }

hasher-GivesBytes : GivesBytes hasher
hasher-GivesBytes = record {
  bytes = λ h. (omega arith, (omega arith, (omega arith, (omega arith, tt))));
}

abbrev site : Node
site = dir (entry (codes "a.js") (regular (record { reads = (1 ∷ []) ∷ [] })) end)

resolve_hashed_request-resolve_example :
    (resolve (hashed (codes "s") ((codes "a.js", codes "a.00000000.js") ∷ [])) (codes "a.js")
      ≡ codes "a.00000000.js")
    × (resolve_hashed_request
          (hashed (codes "s") ((codes "a.js", codes "a.00000000.js") ∷ []))
          (codes "a.00000000.js")
        ≡ some (path_join (codes "s") (codes "a.js")))
unfolding production walk_root walk_files walk_file is_precompressed ends_with text_eq replace
    rel_join hash_file hash_reads hex_short hex_byte hex_digit map_insert map_remove inject_hash
    rsplit_once map_get
resolve_hashed_request-resolve_example =
    resolve_hashed_request-resolve hasher hasher-GivesBytes (codes "s") site
      ((codes "a.js", codes "a.00000000.js") ∷ []) (codes "a.js") (codes "a.00000000.js") refl refl

-- Each text is a language, the header is one language, and the negotiation takes what is both
-- requested and available, and then the default.
abbrev languages : LanguageTools
languages = record {
  parse = λ t. some (record { language = t; to_string = t });
  parse_accepted_languages = λ t. record { language = t; to_string = t } ∷ [];
  negotiate_languages = λ requested available fallback.
      select (λ l. any (λ r. text_eq r.language l.language) requested) available
      ++ push_some fallback [];
}

languages-Negotiates : Negotiates languages
languages-Negotiates = record {
  parse_available = λ t l h e. ground arith;
  picks = λ P requested available fallback h k.
      All-append P (select (λ l. any (λ r. text_eq r.language l.language) requested) available)
        (fallback ∷ [])
        (All-select P (λ l. any (λ r. text_eq r.language l.language) requested) available h)
        (k, tt);
}

negotiate-IsSupported_example :
    IsSupported (negotiate languages (some (codes "fr")) (some (codes "xx")) none)
negotiate-IsSupported_example =
    negotiate-IsSupported languages languages-Negotiates (some (codes "fr")) (some (codes "xx"))
      none

-- A formatter is the text of its locale, and a date its instant.
abbrev datetimes : DateTimeTools Text ℕ ℕ
datetimes = record {
  to_timezone = λ t tz. t;
  try_new_iso_datetime = λ t. some t;
  parse_locale = λ s. some s;
  fallback_locale = codes "en";
  try_new = λ locale lengths. some locale;
  format_to_string = λ f d. some (d ∷ f);
  format_rfc3339 = λ t. none;
}

format_datetime_example :
    ((format_datetime datetimes 5 default_locale
        (record { name = [] })
        style_long
        ((codes "en-u-ca-gregory", style_long, codes "en-u-ca-gregory") ∷ [])).0
      ≡ (format_datetime datetimes 5 default_locale (record { name = [] }) style_long []).0)
    × Sound datetimes
        (format_datetime datetimes 5 default_locale
          (record { name = [] })
          style_long
          ((codes "en-u-ca-gregory", style_long, codes "en-u-ca-gregory") ∷ [])).1
unfolding build_formatter
format_datetime_example =
    format_datetime_lem datetimes 5 default_locale (record { name = [] }) style_long
      ((codes "en-u-ca-gregory", style_long, codes "en-u-ca-gregory") ∷ []) (refl, tt)

run-AllKnown_example :
    run
      (within bare (within bare leaf leaf) leaf)
      (record { current = record { trace_id = 1; span_id = 2 }; guard_stack = [] })
    ≡ record { current = record { trace_id = 1; span_id = 2 }; guard_stack = [] }
run-AllKnown_example =
    run-AllKnown (within bare (within bare leaf leaf) leaf)
      (record { current = record { trace_id = 1; span_id = 2 }; guard_stack = [] })
      (tt, (tt, tt, tt), tt)

abbrev fs : Files
fs = record { is_file = λ path. true; open_file = λ path. some path; mime = λ path. none }
