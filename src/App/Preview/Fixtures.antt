-- ===== src/App/Preview/Fixtures.antt =====
-- crates/app/src/preview/fixtures.rs: fixture files, and which templates have which. The TOML parser
-- is a parameter of the loader.
use todo_rust.Prelude.{
  Bool, List, Option, [], false, if◌then◌else◌, ltb, none, not, push_some, some, true, unwrap_or,
  ◌&&◌, ◌++◌, ◌==◌, ◌∷◌,
}
use todo_rust.FileTree.{
  Entries, Node, broken, dir, end, entry, locked, path_join, regular, rel_join, special, unreadable,
}
use todo_rust.Prelude.Exec.{Result, err, ok}
use todo_rust.Text.{
  Text, codes, ends_with, is_empty, replace, rsplit_once, starts_with, text_eq, trim_end_matches,
}

-- A JSON value as far as the program looks into it: an object, and any other value by its text.
pub data Json : Type 0 where
  json_null : Json
  json_object : List (Text × Text) → Json
  json_other : Text → Json

-- The path, and the text of the error of the file system or of the parser.
pub data FixtureError : Type 0 where
  io : Text → Text → FixtureError
  parse : Text → Text → FixtureError

-- `Display`
unfoldable pub fixture_message : FixtureError → Text
fixture_message (io path source) =
    codes "io error reading fixture " ++ (path ++ (codes ": " ++ source))
fixture_message (parse path source) =
    codes "toml parse error in fixture " ++ (path ++ (codes ": " ++ source))

pub record FixtureMeta : Type 0 where
  pub description : Option Text

pub record FixtureFile : Type 0 where
  pub meta : FixtureMeta
  pub ctx : Option Json

pub record LoadedFixture : Type 0 where
  pub meta : FixtureMeta
  pub ctx : Json

pub record Story : Type 0 where
  pub name : Text
  pub file : Text

pub record TemplateEntry : Type 0 where
  pub template_path : Text
  pub stories : List Story

unfoldable pub load_fixture :
    (Text → Result Text Text)
    → (Text → Result Text FixtureFile)
    → Text
    → Result FixtureError LoadedFixture
load_fixture read_to_string from_toml path = elim (read_to_string path) [
  | err e ↦ err (io path e)
  | ok raw ↦ elim (from_toml raw) [
    | err e ↦ err (parse path e)
    | ok fixture ↦ ok (record { meta = fixture.meta; ctx = unwrap_or fixture.ctx json_null })
  ]
]

-- The order of `str`, which is that of the code points.
unfoldable pub text_leb : Text → Text → Bool
text_leb [] t = true
text_leb (a ∷ s) [] = false
text_leb (a ∷ s) (b ∷ t) = let rest = text_leb s t in if a == b then rest else ltb a b

abbrev default_name : Text
default_name = codes "default"

-- Whether `a` may stand before `b`: "default" comes first, the rest by name.
unfoldable pub story_leb : Text → Text → Bool
story_leb a b =
    if text_eq a default_name then true else if text_eq b default_name then false else text_leb a b

module _ {A : Type 0} (leb_by : A → A → Bool) where
  unfoldable pub insert_by : A → List A → List A
  insert_by a [] = a ∷ []
  insert_by a (b ∷ l) = let later = insert_by a l in if leb_by a b then a ∷ b ∷ l else b ∷ later

  -- `sort_by`, which is stable.
  unfoldable pub sort_by : List A → List A
  unfolding insert_by
  sort_by [] = []
  sort_by (a ∷ l) = insert_by a (sort_by l)

-- `file_stem` and `extension` of a file name: the last dot parts them, unless it is the first byte.
unfoldable pub stem_and_extension : Text → Text × Option Text
stem_and_extension name = elim (rsplit_once name b'.') [
  | none ↦ (name, none)
  | some (stem, ext) ↦ if is_empty stem then (name, none) else (stem, some ext)
]

unfoldable pub is_toml : Option Text → Bool
is_toml none = false
is_toml (some ext) = text_eq ext (codes "toml")

-- The story of a file, if it is a `.toml` one.
unfoldable pub story_of : Text → Text → Node → Option Story
unfolding stem_and_extension is_toml
story_of dir_path name (regular body) =
    let (stem, ext) = stem_and_extension name in
    if is_toml ext then some (record { name = stem; file = path_join dir_path name }) else none
story_of dir_path name _ = none

abbrev and_push :
    {A : Type 0} → Option A → Result FixtureError (List A) → Result FixtureError (List A)
and_push s (err e) = err e
and_push s (ok l) = ok (push_some s l)

abbrev pub map_result : {A B : Type 0} → (A → B) → Result FixtureError A → Result FixtureError B
map_result f (ok a) = ok (f a)
map_result f (err e) = err e

-- Two parts of a walk, the first error first.
abbrev pub append_results :
    {A : Type 0}
    → Result FixtureError (List A)
    → Result FixtureError (List A)
    → Result FixtureError (List A)
append_results (err e) r = err e
append_results (ok l) (err e) = err e
append_results (ok l) (ok m) = ok (l ++ m)

-- The loop over a directory of fixtures.
unfoldable pub read_stories : Text → Entries → Result FixtureError (List Story)
unfolding story_of
read_stories dir_path end = ok []
read_stories dir_path (broken e entries) = err (io dir_path e)
read_stories dir_path (entry name node entries) =
    and_push (story_of dir_path name node) (read_stories dir_path entries)

-- `none` stands for a path where there is nothing.
unfoldable pub stories_for : Text → Option Node → Result FixtureError (List Story)
unfolding read_stories
stories_for dir_path none = ok []
stories_for dir_path (some (dir entries)) =
    map_result (sort_by (λ a b. story_leb a.name b.name)) (read_stories dir_path entries)
stories_for dir_path (some (locked e)) = err (io dir_path e)
stories_for dir_path (some node) = err (io dir_path (codes "not a directory"))

unfoldable pub template_stem : Text → Text
template_stem path = trim_end_matches path (codes ".html")

-- Whether a file is listed: a `.html` one whose name does not begin with an underscore.
unfoldable pub is_listed : Text → Bool
is_listed name = not (starts_with name (codes "_")) && ends_with name (codes ".html")

-- `fixtures` finds what stands at a path below the directory of fixtures.
module _ (fixtures_dir : Text) (fixtures : Text → Option Node) where
  -- The rest of the round for an entry that is not a directory.
  unfoldable pub template_entry : Text → Text → Result FixtureError (Option TemplateEntry)
  template_entry rel name =
      if not (is_listed name)
      then ok none
      else let template_path = replace (rel_join rel name) 92 b'/' in
        let stem = template_stem template_path in
        map_result (λ stories. some (record { template_path = template_path; stories = stories }))
          (stories_for (path_join fixtures_dir stem) (fixtures stem))

  unfoldable mutual
    pub walk_template : Node → Text → Text → Result FixtureError (List TemplateEntry)
    walk_template (dir entries) rel name = walk_templates entries (rel_join rel name)
    walk_template (locked e) rel name = err (io (rel_join rel name) e)
    walk_template (regular body) rel name =
        map_result (λ e. push_some e []) (template_entry rel name)
    walk_template (unreadable e) rel name =
        map_result (λ e. push_some e []) (template_entry rel name)
    walk_template special rel name = map_result (λ e. push_some e []) (template_entry rel name)

    pub walk_templates : Entries → Text → Result FixtureError (List TemplateEntry)
    walk_templates end rel = ok []
    walk_templates (broken e entries) rel = err (io rel e)
    walk_templates (entry name node entries) rel =
        append_results (walk_template node rel name) (walk_templates entries rel)

  unfoldable pub discover : Node → Result FixtureError (List TemplateEntry)
  discover (dir entries) =
      map_result (sort_by (λ a b. text_leb a.template_path b.template_path))
        (walk_templates entries [])
  discover (locked e) = err (io [] e)
  discover node = err (io [] (codes "not a directory"))
