-- ===== src/App/Preview/Discovery.antt =====
-- `discover` and `walk_templates` of crates/app/src/preview/fixtures.rs against the list of the pages
-- in a tree of templates.
use mathlib.Core.List.{Perm, map-append}
use mathlib.Core.List.Perm
use todo_rust.Prelude.{
  All, All-append, Bool, Bool-cases, List, Option, [], arith, if◌then◌else◌, inl, inr, map,
  push_some, refl, subst, ◌++◌, ◌∙◌, ◌∷◌, ◌≡◌,
}
use todo_rust.App.Preview.Fixtures.{
  TemplateEntry, discover, is_listed, map_result, sort_by, stories_for, template_entry,
  template_stem, text_leb, walk_template, walk_templates,
}
use todo_rust.App.Preview.Order.{
  All-sort_by, IsSorted, sort_by-IsSorted, sort_by-Perm, text_leb_total, text_leb_trans,
}
use todo_rust.FileTree.{
  Entries, Node, broken, dir, end, entry, locked, path_join, regular, rel_join, special, unreadable,
}
use todo_rust.Prelude.Exec.{Result-cases, ok}
use todo_rust.Text.{Text, replace}

-- The path of a file as the index of the preview shows it, if the file is listed.
abbrev pub page_at : Text → Text → List Text
page_at rel name = if is_listed name then replace (rel_join rel name) 92 b'/' ∷ [] else []

-- The paths of the listed files of a tree, in the order of the walk.
unfoldable mutual
  pub pages_of : Node → Text → Text → List Text
  pages_of (dir entries) rel name = pages_in entries (rel_join rel name)
  pages_of (locked e) rel name = []
  pages_of (regular body) rel name = page_at rel name
  pages_of (unreadable e) rel name = page_at rel name
  pages_of special rel name = page_at rel name

  pub pages_in : Entries → Text → List Text
  pages_in end rel = []
  pages_in (broken e entries) rel = pages_in entries rel
  pages_in (entry name node entries) rel = pages_of node rel name ++ pages_in entries rel

abbrev pub path_leb : TemplateEntry → TemplateEntry → Bool
path_leb a b = text_leb a.template_path b.template_path

module _ (fixtures_dir : Text) (fixtures : Text → Option Node) where
  -- The stories of an entry are those of the directory named after its page.
  abbrev pub HasStories : TemplateEntry → Type 0
  HasStories e =
      stories_for (path_join fixtures_dir (template_stem e.template_path))
        (fixtures (template_stem e.template_path))
      ≡ ok e.stories

  -- The entries found are those of the paths, in their order.
  abbrev Lists : List TemplateEntry → List Text → Type 0
  Lists found paths =
      (map (λ (e : TemplateEntry). e.template_path) found ≡ paths) × All HasStories found

  template_entry-Lists :
      (rel name : Text) (found : List TemplateEntry)
      → map_result (λ e. push_some e []) (template_entry fixtures_dir fixtures rel name) ≡ ok found
      → Lists found (page_at rel name)
  template_entry-Lists rel name found h =
      let path = replace (rel_join rel name) 92 b'/' in
      let stem = template_stem path in
      elim (Bool-cases (is_listed name)) [
        | inr hidden ↦
            let same : [] ≡ found = unfold template_entry in ground (arith, h, hidden) in
            subst (λ l. Lists l (page_at rel name)) same (rw hidden (refl, tt))
        | inl listed ↦
            elim (Result-cases (stories_for (path_join fixtures_dir stem) (fixtures stem))) [
              | inr (e, k) ↦ absurd (unfold template_entry in ground (arith, h, listed, k))
              | inl (stories, k) ↦
                  let made : TemplateEntry = record { template_path = path; stories = stories } in
                  let same : made ∷ [] ≡ found =
                    unfold template_entry in ground (arith, h, listed, k) in
                  subst (λ l. Lists l (page_at rel name)) same (rw listed (refl, (k, tt)))
            ]
      ]

  Lists-append :
      (l m : List TemplateEntry) (p q : List Text) → Lists l p → Lists m q → Lists (l ++ m) (p ++ q)
  Lists-append l m p q (same, h) (same', k) = (
    map-append (λ (e : TemplateEntry). e.template_path) l m ∙ (rw (same, same')),
    All-append HasStories l m h k,
  )

  mutual
    unfolding walk_template walk_templates pages_of pages_in

    walk_template-Lists :
        (node : Node) (rel name : Text) (found : List TemplateEntry)
        → walk_template fixtures_dir fixtures node rel name ≡ ok found
        → Lists found (pages_of node rel name)
    walk_template-Lists (dir entries) rel name found h =
        walk_templates-Lists entries (rel_join rel name) found h
    walk_template-Lists (locked e) rel name found h = cc
    walk_template-Lists (regular body) rel name found h = template_entry-Lists rel name found h
    walk_template-Lists (unreadable e) rel name found h = template_entry-Lists rel name found h
    walk_template-Lists special rel name found h = template_entry-Lists rel name found h

    walk_templates-Lists :
        (entries : Entries) (rel : Text) (found : List TemplateEntry)
        → walk_templates fixtures_dir fixtures entries rel ≡ ok found
        → Lists found (pages_in entries rel)
    walk_templates-Lists end rel found h =
        let same : [] ≡ found = ground (arith, h) in subst (λ l. Lists l []) same (refl, tt)
    walk_templates-Lists (broken e entries) rel found h = cc
    walk_templates-Lists (entry name node entries) rel found h =
        elim (Result-cases (walk_template fixtures_dir fixtures node rel name)) [
          | inr (e, k) ↦ absurd (ground (arith, h, k))
          | inl (l, k) ↦ elim (Result-cases (walk_templates fixtures_dir fixtures entries rel)) [
            | inr (e, j) ↦ absurd (ground (arith, h, k, j))
            | inl (m, j) ↦
                let same : l ++ m ≡ found = ground (arith, h, k, j) in
                subst (λ r. Lists r (pages_of node rel name ++ pages_in entries rel)) same
                  (Lists-append l m _ _ (walk_template-Lists node rel name l k)
                    (walk_templates-Lists entries rel m j))
          ]
        ]

  -- Where `discover` succeeds on a directory, it gives the listed files of the tree below it, each
  -- once for each file, sorted by path, each with what `stories_for` gives for the directory of
  -- fixtures that is named after it.
  pub discover_lem :
      (entries : Entries) (out : List TemplateEntry)
      → discover fixtures_dir fixtures (dir entries) ≡ ok out
      → Perm (map (λ (e : TemplateEntry). e.template_path) out) (pages_in entries [])
        × IsSorted path_leb out
        × All HasStories out
  discover_lem entries out h =
      elim (Result-cases (walk_templates fixtures_dir fixtures entries [])) [
        | inr (e, k) ↦ absurd (unfold discover in ground (arith, h, k))
        | inl (found, k) ↦
            let (paths, stories) = walk_templates-Lists entries [] found k in
            let same : sort_by path_leb found ≡ out = unfold discover in ground (arith, h, k) in
            let perm = sort_by-Perm path_leb found in
            (
              subst
                  (λ l. Perm (map (λ (e : TemplateEntry). e.template_path) l) (pages_in entries []))
                  same
                  (subst
                    (λ l.
                      Perm (map (λ (e : TemplateEntry). e.template_path) (sort_by path_leb found))
                        l)
                    paths (Perm.map (λ (e : TemplateEntry). e.template_path) perm)),
              subst (IsSorted path_leb) same (
                  sort_by-IsSorted path_leb (λ a b. text_leb_total a.template_path b.template_path)
                    (λ a b c. text_leb_trans a.template_path b.template_path c.template_path)
                    found),
              subst (All HasStories) same (All-sort_by path_leb HasStories found stories),
            )
      ]
