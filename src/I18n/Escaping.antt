-- ===== src/I18n/Escaping.antt =====
-- The output of `escape_attr`, as a browser reads it.
use todo_rust.Prelude.{
  List, Option, [], ap, arith, if◌then◌else◌, length, length-append, map_option, none, or_else,
  refl, some, suc, unwrap_or, zero, ℕ, ◌++◌, ◌==◌, ◌∷◌, ◌≡◌, ◌≤◌,
}
use todo_rust.I18n.Helpers.{attr_char, escape_attr}
use todo_rust.Text.{Text, codes, strip_prefix}
use todo_rust.Text.Laws.{Avoids, Avoids-append}

-- What a browser reads of the five character references that the program writes.
abbrev references : List (Text × ℕ)
references =
    (codes "amp;", b'&')
    ∷ (codes "lt;", b'<')
    ∷ (codes "gt;", b'>')
    ∷ (codes "quot;", 34)
    ∷ (codes "#39;", 39)
    ∷ []

-- The first reference that the text goes on with, and what stands behind it.
abbrev read_reference : List (Text × ℕ) → Text → Option (ℕ × Text)
read_reference [] s = none
read_reference ((name, c) ∷ names) s =
    or_else (map_option (λ rest. (c, rest)) (strip_prefix s name)) (read_reference names s)

-- The first character that a browser reads, and what stands behind it.
unfoldable pub read_char : Text → Option (ℕ × Text)
unfolding strip_prefix
read_char [] = none
read_char (c ∷ s) =
    if c == b'&' then some (unwrap_or (read_reference references s) (c, s)) else some (c, s)

-- The text that a browser reads; it has no more characters than what it reads them from.
unfoldable pub unescape : ℕ → Text → Text
unescape zero s = []
unescape (suc fuel) s = elim (read_char s) [ some (c, rest) ↦ c ∷ unescape fuel rest | none ↦ [] ]

read_char-attr_char : (c : ℕ) (s : Text) → read_char (attr_char c ++ s) ≡ some (c, s)
unfolding read_char attr_char strip_prefix
read_char-attr_char c s = ground arith

-- No character with a meaning in the markup, but the ampersand of a reference.
abbrev pub IsInert : Text → Type 0
IsInert s = Avoids b'<' s × Avoids b'>' s × Avoids 34 s × Avoids 39 s

attr_char-IsInert : (c : ℕ) → IsInert (attr_char c)
unfolding attr_char
attr_char-IsInert c = ground arith

escape_attr-IsInert : (s : Text) → IsInert (escape_attr s)
unfolding escape_attr
escape_attr-IsInert [] = (tt, tt, tt, tt)
escape_attr-IsInert (c ∷ s) =
    let (lt, gt, quot, apos) = attr_char-IsInert c in
    let (lt', gt', quot', apos') = escape_attr-IsInert s in
    (
      Avoids-append b'<' (attr_char c) (escape_attr s) lt lt',
      Avoids-append b'>' (attr_char c) (escape_attr s) gt gt',
      Avoids-append 34 (attr_char c) (escape_attr s) quot quot',
      Avoids-append 39 (attr_char c) (escape_attr s) apos apos',
    )

length-attr_char : (c : ℕ) → 1 ≤ length (attr_char c)
unfolding attr_char
length-attr_char c = ground arith

unescape-enough :
    (fuel : ℕ) (s : Text) → length (escape_attr s) ≤ fuel → unescape fuel (escape_attr s) ≡ s
unfolding escape_attr unescape
unescape-enough zero [] h = refl
unescape-enough (suc fuel) [] h = unfold read_char in refl
unescape-enough zero (c ∷ s) h =
    absurd (omega (arith, h, length-attr_char c, length-append (attr_char c) (escape_attr s)))
unescape-enough (suc fuel) (c ∷ s) h =
    rw (unescape, read_char-attr_char c (escape_attr s))
      (ap (λ rest. c ∷ rest)
        (unescape-enough fuel s
          (omega (arith, h, length-attr_char c, length-append (attr_char c) (escape_attr s)))))

-- The value of an attribute that `escape_attr` writes has no angle bracket and no quotation mark,
-- and a browser reads the original text from it.
pub escape_attr_lem :
    (s : Text) → IsInert (escape_attr s) × (unescape (length (escape_attr s)) (escape_attr s) ≡ s)
escape_attr_lem s =
    (escape_attr-IsInert s, unescape-enough (length (escape_attr s)) s (omega arith))
