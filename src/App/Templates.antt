-- ===== src/App/Templates.antt =====
-- crates/app/src/templates.rs: the engine of the templates, made once or anew for each rendering.
-- `E` is an `Environment` of minijinja and `T` a template of it.
use todo_rust.Prelude.{◌≡◌}
use todo_rust.App.Error.{AppError, template}
use todo_rust.App.World.{Context}
use todo_rust.Assets.{Assets, root}
use todo_rust.I18n.Messages.{Locales}
use todo_rust.Prelude.Exec.{Result, err, map_err_result, ok}
use todo_rust.Text.{Text}

-- An environment that loads from a directory, with the functions of the i18n and assets crates
-- registered; and what it does. The text of an error is that of minijinja.
pub record Engine (E T : Type 0) : Type 0 where
  pub set_loader : Text → E
  pub register_i18n : Locales → E → E
  pub register_assets : Assets → E → E
  pub get_template : E → Text → Result Text T
  pub render : T → Context → Result Text Text
  -- `acquire_env`, with what the closure of the reloader makes.
  pub acquire_env : Result Text E → Result Text E

-- `Reloading` holds the closure, by what it is made of.
pub data Templates (E : Type 0) : Type 0 where
  static_env : E → Templates E
  reloading : Text → Locales → Assets → Templates E

module _ {E T : Type 0} (engine : Engine E T) where
  unfoldable pub new_environment : Text → Locales → Assets → E
  new_environment root locales assets =
      engine.register_assets assets (engine.register_i18n locales (engine.set_loader root))

  unfoldable pub templates_production : Text → Locales → Assets → Templates E
  templates_production root locales assets = static_env (new_environment root locales assets)

  unfoldable pub templates_dev : Text → Locales → Assets → Templates E
  templates_dev root locales assets = reloading root locales assets

  abbrev render_in : E → Text → Context → Result AppError Text
  render_in env name ctx = elim (engine.get_template env name) [
    | err e ↦ err template
    | ok t ↦ map_err_result (λ e. template) (engine.render t ctx)
  ]

  unfoldable pub render : Templates E → Text → Context → Result AppError Text
  render (static_env env) name ctx = render_in env name ctx
  render (reloading root locales assets) name ctx =
      elim (engine.acquire_env (ok (new_environment root locales assets))) [
        | err e ↦ err template
        | ok env ↦ render_in env name ctx
      ]

  -- Where the reloader gives the environment that its closure makes, the templates of development
  -- and of production render the same.
  pub render-templates_dev :
      (root name : Text) (locales : Locales) (assets : Assets) (ctx : Context)
      → engine.acquire_env (ok (new_environment root locales assets))
        ≡ ok (new_environment root locales assets)
      → render (templates_dev root locales assets) name ctx
        ≡ render (templates_production root locales assets) name ctx
  unfolding render templates_dev templates_production
  render-templates_dev root name locales assets ctx h = rw (render, h)
