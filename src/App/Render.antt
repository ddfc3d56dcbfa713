-- ===== src/App/Render.antt =====
-- crates/app/src/render.rs and auth.rs: the context of every template, the preferences of a profile,
-- the localized text of validation errors, and the backend of the sessions.
use todo_rust.Prelude.{
  Bool, List, Option, [], keep_if, map_option, none, not, some, unwrap_or, ◌++◌, ◌∷◌,
}
use todo_rust.App.Error.{template, unauthorized}
use todo_rust.App.World.{
  AuthUserRecord, Context, External, Handler, RequestContext, World, on_db, record_metrics, text,
}
use todo_rust.Domain.{User, UserId, Uuid}
use todo_rust.Domain.Validation.{ValidationError, ValidationErrors}
use todo_rust.I18n.Locale.{LanguageIdentifier}
use todo_rust.I18n.Messages.{Locales, lookup}
use todo_rust.I18n.Tz.{parse_tz}
use todo_rust.Metrics.{Metric}
use todo_rust.Prelude.Exec.{Exec, ok, ok_or}
use todo_rust.Storage.{StorageError}
use todo_rust.Storage.UserRepo.{find_by_id, verify}
use todo_rust.Text.{Text, codes, is_empty, join}

unfoldable pub base_context : RequestContext → Context
base_context ctx =
    (codes "_locale", text ctx.locale.to_string)
    ∷ (codes "_tz", text ctx.tz.name)
    ∷ (codes "csp_nonce", text ctx.csp_nonce)
    ∷ []

abbrev non_empty : Text → Bool
non_empty s = not (is_empty s)

-- The messages of the errors, looked up one by one, with the counters of those that are missing.
unfoldable pub localize_all :
    Locales → LanguageIdentifier → List ValidationError → List Text × List Metric
localize_all locales locale [] = ([], [])
localize_all locales locale (e ∷ errs) =
    let (part, counted) = lookup locales locale (unwrap_or e.message e.code) none in
    let (parts, more) = localize_all locales locale errs in (part ∷ parts, counted ++ more)

-- The errors of all fields, in the order of `field_errors`.
unfoldable pub field_errors : ValidationErrors → List ValidationError
field_errors [] = []
field_errors ((field, errs) ∷ rest) = errs ++ field_errors rest

unfoldable pub localize_validation_errors :
    Locales → LanguageIdentifier → ValidationErrors → Text × List Metric
unfolding localize_all field_errors
localize_validation_errors locales locale errs =
    let (parts, counted) = localize_all locales locale (field_errors errs) in
    elim parts [
      | [] ↦ lookup locales locale (codes "validation-generic") none
      | part ∷ rest ↦ (join (part ∷ rest) (codes " "), counted)
    ]

module _ {R S : Type 0} (x : External R S) where
  unfoldable pub override_from_profile : User → RequestContext → RequestContext
  override_from_profile user ctx = record ctx {
    locale = elim (keep_if non_empty user.locale) [
      | some s ↦ unwrap_or (x.languages.parse s) ctx.locale
      | none ↦ ctx.locale
    ];
    tz = elim (keep_if non_empty user.timezone) [
      | some s ↦ unwrap_or (parse_tz x.zones s) ctx.tz
      | none ↦ ctx.tz
    ];
  }

  -- `state.templates.render(name, context)?`
  unfoldable pub render_template : Text → Context → Handler R S Text
  render_template name context = ok_or (x.render name context) template

  -- `state.locales.lookup(&locale, id, None)`
  unfoldable pub say : LanguageIdentifier → Text → Handler R S Text
  say locale id w =
      let (message, counted) = lookup x.locales locale id none in
      (ok message, record_metrics counted w)

  -- `format_validation_message`
  unfoldable pub say_errors : LanguageIdentifier → ValidationErrors → Handler R S Text
  say_errors locale errs w =
      let (message, counted) = localize_validation_errors x.locales locale errs in
      (ok message, record_metrics counted w)

  -- `require_user`
  unfoldable pub require_user : Handler R S UserId
  require_user w = ok_or (map_option (λ (u : AuthUserRecord). u.id) w.auth.user) unauthorized w

  -- `auth.user.as_ref().expect("require_user succeeded")`
  unfoldable pub session_user : Handler R S User
  session_user w = ok_or w.auth.user unauthorized w

  -- `AuthnBackend::authenticate`
  unfoldable pub authenticate : Text → Text → Exec StorageError (World R S) (Option AuthUserRecord)
  authenticate email password = on_db (verify x.accounts email password)

  -- `AuthnBackend::get_user`
  unfoldable pub get_user : Uuid → Exec StorageError (World R S) (Option AuthUserRecord)
  get_user user_id = on_db (find_by_id x.accounts (record { uuid = user_id }))
