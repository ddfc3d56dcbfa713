-- ===== src/Text.antt =====
-- Text as the list of its code points, and the operations of the standard library's `str` that the
-- program uses.
pub mod Laws
pub mod Suffixes
use Prim.Native.Char.{code}
use todo_rust.Prelude.{
  Bool, List, Option, String, [], false, if◌then◌else◌, is_some, leb, length, none, some, suc, true,
  zero, ℕ, ◌&&◌, ◌++◌, ◌==◌, ◌||◌, ◌∷◌,
}

abbrev pub Text : Type 0
Text = List ℕ

-- The code points of a literal.
abbrev pub codes : String → Text
codes String.[] = []
codes (String.◌∷◌ c s) = code c ∷ codes s

unfoldable pub text_eq : Text → Text → Bool
text_eq [] [] = true
text_eq (a ∷ s) (b ∷ t) = a == b && text_eq s t
text_eq _ _ = false

abbrev pub is_empty : Text → Bool
is_empty [] = true
is_empty (c ∷ s) = false

-- `char::is_whitespace`: the Unicode property White_Space.
unfoldable pub is_whitespace : ℕ → Bool
is_whitespace c =
    (leb 9 c && leb c 13)
    || c == 0x20
    || c == 0x85
    || c == 0xA0
    || c == 0x1680
    || (leb 0x2000 c && leb c 0x200A)
    || c == 0x2028
    || c == 0x2029
    || c == 0x202F
    || c == 0x205F
    || c == 0x3000

unfoldable pub trim_start : Text → Text
unfolding is_whitespace
trim_start [] = []
trim_start (c ∷ s) = let rest = trim_start s in if is_whitespace c then rest else c ∷ s

-- A white space stays only where something is left behind it.
abbrev pub trim_behind : ℕ → Text → Text
trim_behind c [] = if is_whitespace c then [] else c ∷ []
trim_behind c (d ∷ s) = c ∷ d ∷ s

unfoldable pub trim_end : Text → Text
unfolding is_whitespace
trim_end [] = []
trim_end (c ∷ s) = trim_behind c (trim_end s)

unfoldable pub trim : Text → Text
unfolding trim_start trim_end
trim s = trim_end (trim_start s)

-- `s.strip_prefix(p)`
unfoldable pub strip_prefix : Text → Text → Option Text
strip_prefix s [] = some s
strip_prefix [] (b ∷ p) = none
strip_prefix (a ∷ s) (b ∷ p) = let rest = strip_prefix s p in if a == b then rest else none

-- `s.starts_with(p)`
unfoldable pub starts_with : Text → Text → Bool
unfolding strip_prefix
starts_with s p = is_some (strip_prefix s p)

-- `s.ends_with(p)`: a suffix of `s` is `p`.
unfoldable pub ends_with : Text → Text → Bool
unfolding text_eq
ends_with [] p = text_eq [] p
ends_with (c ∷ s) p = text_eq (c ∷ s) p || ends_with s p

-- `s.trim_start_matches(c)`
unfoldable pub trim_start_matches : Text → ℕ → Text
trim_start_matches [] c = []
trim_start_matches (a ∷ s) c = let rest = trim_start_matches s c in if a == c then rest else a ∷ s

-- One more character of the piece that a split is in.
abbrev pub onto_first : ℕ → List Text → List Text
onto_first c [] = (c ∷ []) ∷ []
onto_first c (piece ∷ pieces) = (c ∷ piece) ∷ pieces

-- `s.split(sep)`
unfoldable pub split : Text → ℕ → List Text
split [] sep = [] ∷ []
split (c ∷ s) sep = let rest = split s sep in if c == sep then [] ∷ rest else onto_first c rest

abbrev pub before_last : ℕ → ℕ → Text → Option (Text × Text) → Option (Text × Text)
before_last sep c s (some (a, b)) = some (c ∷ a, b)
before_last sep c s none = if c == sep then some ([], s) else none

-- `s.rfind(sep)`, with the text before and behind the place that it finds.
unfoldable pub rsplit_once : Text → ℕ → Option (Text × Text)
rsplit_once [] sep = none
rsplit_once (c ∷ s) sep = before_last sep c s (rsplit_once s sep)

-- `pieces.join(sep)`
unfoldable pub join : List Text → Text → Text
join [] sep = []
join (piece ∷ []) sep = piece
join (piece ∷ next ∷ rest) sep = piece ++ (sep ++ join (next ∷ rest) sep)

-- `s.replace(a, b)` for characters.
unfoldable pub replace : Text → ℕ → ℕ → Text
replace [] a b = []
replace (c ∷ s) a b = (if c == a then b else c) ∷ replace s a b

abbrev strip_behind : ℕ → Text → Option Text → Option Text
strip_behind c p (some s) = some (c ∷ s)
strip_behind c p none = none

-- `s.strip_suffix(p)`
unfoldable pub strip_suffix : Text → Text → Option Text
unfolding text_eq
strip_suffix [] p = if text_eq [] p then some [] else none
strip_suffix (c ∷ s) p =
    let rest = strip_behind c p (strip_suffix s p) in if text_eq (c ∷ s) p then some [] else rest

-- One end after the other is taken off; a text has fewer of them than its length.
unfoldable pub trim_ends : ℕ → Text → Text → Text
trim_ends zero s p = s
trim_ends (suc fuel) s p = elim (strip_suffix s p) [ some rest ↦ trim_ends fuel rest p | none ↦ s ]

-- `s.trim_end_matches(p)` for a text `p` that is not empty.
unfoldable pub trim_end_matches : Text → Text → Text
unfolding trim_ends
trim_end_matches s p = trim_ends (length s) s p
