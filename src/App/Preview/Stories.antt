-- ===== src/App/Preview/Stories.antt =====
-- `stories_for` of crates/app/src/preview/fixtures.rs against the list of the fixtures in a directory.
use mathlib.Core.List.{Perm}
use todo_rust.Prelude.{
  All, Bool-cases, List, Option, Option-cases, [], ap, arith, false, if◌then◌else◌, inl, inr,
  map_option, none, push_some, refl, some, subst, sym, true, ◌<◌, ◌==◌, ◌∙◌, ◌∷◌, ◌≡◌, ◌≢◌, ◌⊎◌,
}
use todo_rust.App.Preview.Fixtures.{
  Story, is_toml, read_stories, sort_by, stem_and_extension, stories_for, story_leb, story_of,
  text_leb,
}
use todo_rust.App.Preview.Order.{
  IsSorted, sort_by-IsSorted, sort_by-Perm, story_leb_total, story_leb_trans,
}
use todo_rust.FileTree.{
  Entries, FileBody, Node, broken, dir, end, entry, locked, path_join, regular, special, unreadable,
}
use todo_rust.Prelude.Exec.{Result-cases, ok}
use todo_rust.Text.{Text, codes, ends_with, is_empty, rsplit_once, strip_suffix, text_eq}
use todo_rust.Text.Laws.{rsplit_once-append, rsplit_once_sound, text_eq_iff}
use todo_rust.Text.Suffixes.{ends_with-append, strip_suffix-eq-none, strip_suffix_sound}

abbrev toml_end : Text
toml_end = codes ".toml"

-- The name of a fixture: what stands before ".toml", if anything does.
abbrev pub fixture_name : Text → Option Text
fixture_name name = elim (strip_suffix name toml_end) [
  | some stem ↦ if is_empty stem then none else some stem
  | none ↦ none
]

-- A file is a story if it is named so.
abbrev pub fixture_of : Text → Text → Node → Option Story
fixture_of dir_path name (regular body) =
    map_option (λ stem. record { name = stem; file = path_join dir_path name }) (fixture_name name)
fixture_of dir_path name _ = none

-- The stories of a directory, in the order of its entries.
abbrev pub fixtures_in : Text → Entries → List Story
fixtures_in dir_path end = []
fixtures_in dir_path (broken e entries) = fixtures_in dir_path entries
fixtures_in dir_path (entry name node entries) =
    push_some (fixture_of dir_path name node) (fixtures_in dir_path entries)

-- The lexicographic order of texts.
abbrev pub IsBefore : Text → Text → Type 0
IsBefore [] t = Unit
IsBefore (a ∷ s) [] = ⊥
IsBefore (a ∷ s) (b ∷ t) = (a < b) ⊎ ((a ≡ b) × IsBefore s t)

-- "default" comes before all, and the others by name.
abbrev pub ComesBefore : Story → Story → Type 0
ComesBefore a b = (a.name ≡ codes "default") ⊎ ((b.name ≢ codes "default") × IsBefore a.name b.name)

abbrev pub InOrder : List Story → Type 0
InOrder [] = Unit
InOrder (a ∷ l) = All (λ b. ComesBefore a b) l × InOrder l

IsBefore-of_text_leb : (s t : Text) → text_leb s t ≡ true → IsBefore s t
unfolding text_leb
IsBefore-of_text_leb [] t h = tt
IsBefore-of_text_leb (a ∷ s) [] h = cc
IsBefore-of_text_leb (a ∷ s) (b ∷ t) h = elim (Bool-cases (a == b)) [
  | inl e ↦ inr (ground (arith, e), IsBefore-of_text_leb s t (ground (arith, h, e)))
  | inr e ↦ inl (ground (arith, h, e))
]

ComesBefore-of_story_leb : (a b : Story) → story_leb a.name b.name ≡ true → ComesBefore a b
ComesBefore-of_story_leb a b h = elim (Bool-cases (text_eq a.name (codes "default"))) [
  | inl e ↦ inl ((text_eq_iff a.name (codes "default")).0 e)
  | inr e ↦ elim (Bool-cases (text_eq b.name (codes "default"))) [
    | inl k ↦ absurd (unfold story_leb in ground (arith, h, e, k))
    | inr k ↦ inr (
      (λ same. absurd (ground (arith, k, (text_eq_iff b.name (codes "default")).1 same))),
      IsBefore-of_text_leb a.name b.name (unfold story_leb in ground (arith, h, e, k)),
    )
  ]
]

All-ComesBefore :
    (a : Story) (l : List Story)
    → All (λ (b : Story). story_leb a.name b.name ≡ true) l
    → All (λ b. ComesBefore a b) l
All-ComesBefore a [] h = tt
All-ComesBefore a (b ∷ l) (p, h) = (ComesBefore-of_story_leb a b p, All-ComesBefore a l h)

InOrder-of_IsSorted : (l : List Story) → IsSorted (λ a b. story_leb a.name b.name) l → InOrder l
InOrder-of_IsSorted [] h = tt
InOrder-of_IsSorted (a ∷ l) (p, h) = (All-ComesBefore a l p, InOrder-of_IsSorted l h)

-- The last dot of a name that ends in ".toml" is that of the end.
rsplit_once-toml :
    (name stem : Text)
    → strip_suffix name toml_end ≡ some stem
    → rsplit_once name b'.' ≡ some (stem, codes "toml")
rsplit_once-toml name stem h = rw (strip_suffix_sound name toml_end stem h) (
    rsplit_once-append stem (codes "toml") b'.' (
      (λ e. absurd (omega (arith, e))),
      (
        (λ e. absurd (omega (arith, e))),
        ((λ e. absurd (omega (arith, e))), ((λ e. absurd (omega (arith, e))), tt)),
      ),
    ))

-- A name that does not end in ".toml" has no extension "toml".
is_toml-other :
    (name stem ext : Text)
    → strip_suffix name toml_end ≡ none
    → rsplit_once name b'.' ≡ some (stem, ext)
    → is_toml (some ext) ≡ false
unfolding is_toml
is_toml-other name stem ext h k = elim (Bool-cases (text_eq ext (codes "toml"))) [
  | inr differs ↦ differs
  | inl same ↦
      let whole = (rsplit_once_sound name b'.' stem ext k).0 in
      let toml = (text_eq_iff ext (codes "toml")).0 same in
      let ends : ends_with name toml_end ≡ true =
        rw (whole, toml) (ends_with-append stem toml_end) in
      absurd (ground (arith, ends, strip_suffix-eq-none name toml_end h))
]

-- The story that a name stands for.
abbrev story_named : Text → Text → Text → Story
story_named dir_path name stem = record { name = stem; file = path_join dir_path name }

fixture_of-regular :
    (dir_path name : Text) (body : FileBody) (v : Option Text)
    → fixture_name name ≡ v
    → story_of dir_path name (regular body) ≡ map_option (story_named dir_path name) v
    → story_of dir_path name (regular body) ≡ fixture_of dir_path name (regular body)
fixture_of-regular dir_path name body v e h =
    h ∙ ap (map_option (story_named dir_path name)) (sym e)

story_of-eq-fixture_of :
    (dir_path name : Text) (node : Node)
    → story_of dir_path name node ≡ fixture_of dir_path name node
unfolding story_of is_toml text_eq stem_and_extension
story_of-eq-fixture_of dir_path name (regular body) =
    elim (Option-cases (strip_suffix name toml_end)) [
      | inr (stem, e) ↦
          let parted = rsplit_once-toml name stem e in
          elim (Bool-cases (is_empty stem)) [
            | inl k ↦
                fixture_of-regular dir_path name body none (rw (fixture_name, e, k))
                  (ground (arith, parted, k))
            | inr k ↦
                fixture_of-regular dir_path name body (some stem) (rw (fixture_name, e, k))
                  (ground (arith, parted, k))
          ]
      | inl e ↦
          fixture_of-regular dir_path name body none (rw (fixture_name, e))
            (elim (Option-cases (rsplit_once name b'.')) [
              | inl k ↦ ground (arith, k)
              | inr ((stem, ext), k) ↦
                  let no' = is_toml-other name stem ext e k in
                  elim (Bool-cases (is_empty stem)) [
                    | inl j ↦ ground (arith, k, j)
                    | inr j ↦ ground (arith, k, j, no')
                  ]
            ])
    ]
story_of-eq-fixture_of dir_path name (unreadable e) = refl
story_of-eq-fixture_of dir_path name (dir entries) = refl
story_of-eq-fixture_of dir_path name (locked e) = refl
story_of-eq-fixture_of dir_path name special = refl

read_stories-fixtures_in :
    (dir_path : Text) (entries : Entries) (found : List Story)
    → read_stories dir_path entries ≡ ok found
    → found ≡ fixtures_in dir_path entries
unfolding read_stories
read_stories-fixtures_in dir_path end found h = ground (arith, h)
read_stories-fixtures_in dir_path (broken e entries) found h = cc
read_stories-fixtures_in dir_path (entry name node entries) found h =
    elim (Result-cases (read_stories dir_path entries)) [
      | inr (e, k) ↦ absurd (ground (arith, h, k))
      | inl (l, k) ↦
          let rest = read_stories-fixtures_in dir_path entries l k in
          let same = story_of-eq-fixture_of dir_path name node in
          let made : push_some (story_of dir_path name node) l ≡ found = ground (arith, h, k) in
          rw (← made, same, rest)
    ]

-- The stories that `stories_for` gives for a directory are the files in it that are named ".toml"
-- behind some other text, each as often, with "default" first and the others in the lexicographic
-- order of their names.
pub stories_for_lem :
    (dir_path : Text) (entries : Entries) (stories : List Story)
    → stories_for dir_path (some (dir entries)) ≡ ok stories
    → Perm stories (fixtures_in dir_path entries) × InOrder stories
stories_for_lem dir_path entries stories h = elim (Result-cases (read_stories dir_path entries)) [
  | inr (e, failed) ↦ absurd (unfold stories_for in ground arith)
  | inl (found, k) ↦
      let by_name = λ (a b : Story). story_leb a.name b.name in
      let same : sort_by by_name found ≡ stories = unfold stories_for in ground arith in
      (
        subst (λ l. Perm stories l) (read_stories-fixtures_in dir_path entries found k)
            (subst (λ l. Perm l found) same (sort_by-Perm by_name found)),
        InOrder-of_IsSorted stories (
            subst (IsSorted by_name) same (
              sort_by-IsSorted by_name (λ a b. story_leb_total a.name b.name)
                (λ a b c. story_leb_trans a.name b.name c.name) found)),
      )
]
