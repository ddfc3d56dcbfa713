-- ===== src/App/Preview/Routes.antt =====
-- crates/app/src/preview/routes.rs and shell.rs: the index of the templates, and one rendering.
use todo_rust.Prelude.{Bool, List, Option, [], if◌then◌else◌, map, unwrap_or, ◌++◌, ◌∷◌}
use todo_rust.App.Error.{internal, not_found}
use todo_rust.App.Http.{Response, html_response, insert_header}
use todo_rust.App.Preview.Fixtures.{
  FixtureError, Json, LoadedFixture, Story, TemplateEntry, discover, fixture_message, json_object,
  template_stem,
}
use todo_rust.App.Render.{render_template}
use todo_rust.App.State.{AppState}
use todo_rust.App.World.{Context, External, Handler, items, text}
use todo_rust.FileTree.{Node, path_join}
use todo_rust.Prelude.Exec.{Result, map_err_result, ok_or, pure, raise, ◌>>=◌, ◌>>◌}
use todo_rust.Text.{Text, codes, rsplit_once, starts_with}

pub record PreviewQuery : Type 0 where
  pub locale : Option Text
  pub tz : Option Text

unfoldable pub locale_or_default : PreviewQuery → Text
locale_or_default q = unwrap_or q.locale (codes "en")

unfoldable pub tz_or_default : PreviewQuery → Text
tz_or_default q = unwrap_or q.tz (codes "UTC")

-- "a/b/c.html/story" is ("a/b/c.html", "story").
unfoldable pub split_last_segment : Text → Option (Text × Text)
split_last_segment path = rsplit_once path b'/'

-- The files that the handlers look for.
pub record PreviewFiles : Type 0 where
  pub templates : Node
  pub fixtures : Text → Option Node
  pub template_is_file : Text → Bool
  pub exists : Text → Bool
  pub load : Text → Result FixtureError LoadedFixture

-- The JSON map that is rendered: the latest value of a key stands first.
unfoldable pub merge_fixture : List (Text × Text) → List (Text × Text) → List (Text × Text)
merge_fixture [] merged = merged
merge_fixture ((k, v) ∷ ctx) merged = merge_fixture ctx (insert_header k v merged)

unfoldable pub fixture_pairs : Json → List (Text × Text)
fixture_pairs (json_object ctx) = ctx
fixture_pairs j = []

abbrev as_context : List (Text × Text) → Context
as_context [] = []
as_context ((k, v) ∷ l) = (k, text v) ∷ as_context l

module _ {R S : Type 0} (x : External R S) where
  unfoldable pub check_enabled : AppState → Handler R S (Unit {0})
  check_enabled state = if state.config.dev.preview_enabled then pure tt else raise not_found

  -- shell.rs
  unfoldable pub wrap : Text → Text → Text → Text → Text → Handler R S Text
  wrap rendered_partial template_path story locale tz =
      render_template x (codes "_preview_shell.html") (
        (codes "rendered_partial", text rendered_partial)
        ∷ (codes "template_path", text template_path)
        ∷ (codes "story", text story)
        ∷ (codes "_locale", text locale)
        ∷ (codes "_tz", text tz)
        ∷ [])

  unfoldable pub preview_index :
      AppState → PreviewFiles → PreviewQuery → Text → Handler R S Response
  unfolding check_enabled render_template
  preview_index state files q nonce = do
    check_enabled state
    entries ← λ w. (
      map_err_result (λ e. internal (codes "preview discover failed: " ++ fixture_message e))
          (discover state.config.dev.preview_fixtures_dir files.fixtures files.templates),
      w,
    )
    html ← render_template x (codes "_preview_index.html") (
        (
          codes "entries",
          items (
              map (λ (e : TemplateEntry). (e.template_path, map (λ (s : Story). s.name) e.stories))
                entries),
        )
        ∷ (codes "_locale", text (locale_or_default q))
        ∷ (codes "_tz", text (tz_or_default q))
        ∷ (codes "csp_nonce", text nonce)
        ∷ [])
    pure (html_response 200 [] html)

  -- The ambient values, and those of the fixture over them.
  unfoldable pub preview_context : PreviewQuery → Text → Json → List (Text × Text)
  unfolding merge_fixture fixture_pairs
  preview_context q nonce ctx = merge_fixture (fixture_pairs ctx) (
      (codes "csp_nonce", nonce)
      ∷ (codes "_tz", tz_or_default q)
      ∷ (codes "_locale", locale_or_default q)
      ∷ [])

  -- A partial is wrapped in the shell.
  unfoldable pub preview_body : PreviewQuery → Text → Text → Text → Handler R S Text
  unfolding wrap
  preview_body q template_path story rendered =
      if starts_with template_path (codes "partials/")
      then wrap rendered template_path story (locale_or_default q) (tz_or_default q)
      else pure rendered

  unfoldable pub preview_render :
      AppState → PreviewFiles → PreviewQuery → Text → Text → Handler R S Response
  unfolding check_enabled render_template preview_body
  preview_render state files q nonce path = do
    check_enabled state
    parts ← ok_or (split_last_segment path) not_found
    let template_path = parts.0
    let story = parts.1
    if files.template_is_file (path_join state.config.templates_dir template_path)
        then pure tt
        else raise not_found
    let fixture_dir = path_join state.config.dev.preview_fixtures_dir (template_stem template_path)
    let fixture_file = path_join fixture_dir (story ++ codes ".toml")
    if files.exists fixture_file then pure tt else raise not_found
    loaded ← λ w. (
      map_err_result (λ e. internal (codes "fixture load failed: " ++ fixture_message e))
          (files.load fixture_file),
      w,
    )
    rendered ← render_template x template_path (as_context (preview_context q nonce loaded.ctx))
    body ← preview_body q template_path story rendered
    pure (html_response 200 [] body)
