-- ===== src/App/Routes/Preferences.antt =====
-- crates/app/src/routes/preferences.rs: the preferred locale, in the profile and in a cookie.
use todo_rust.Prelude.{
  Bool, [], and_then, false, if◌then◌else◌, none, not, some, true, unwrap_or, ◌++◌,
}
use todo_rust.App.Error.{validation}
use todo_rust.App.Http.{Headers, Response, get_header, insert_header}
use todo_rust.App.Routes.{is_htmx}
use todo_rust.App.State.{AppState}
use todo_rust.App.World.{Ambient, External, Handler, on_db?}
use todo_rust.I18n.Locale.{contains, supported}
use todo_rust.Prelude.Exec.{ok, pure, raise, ◌>>◌}
use todo_rust.Storage.UserRepo.{update_preferences}
use todo_rust.Text.{Text, codes, trim}

abbrev secure_suffix : Bool → Text
secure_suffix true = codes "; Secure"
secure_suffix false = []

unfoldable pub locale_cookie : Text → Bool → Text
locale_cookie candidate cookie_secure =
    codes "locale="
    ++ (candidate
        ++ (codes "; Path=/; Max-Age=31536000; SameSite=Lax" ++ secure_suffix cookie_secure))

-- The response; a cookie that is no header value would be a panic, and is left out here.
module _ {R S : Type 0} (x : External R S) where
  unfoldable pub cookie_headers : AppState → Text → Headers
  cookie_headers state candidate =
      insert_header (codes "set-cookie") (locale_cookie candidate state.config.auth.cookie_secure)
        []

  -- `HX-Refresh` for htmx, else a redirect to the referring page.
  unfoldable pub locale_response : AppState → Headers → Text → Response
  unfolding cookie_headers
  locale_response state request_headers candidate =
      if is_htmx request_headers
      then record {
        status = 204;
        headers =
            insert_header (codes "hx-refresh") (codes "true") (cookie_headers state candidate);
        body = [];
      }
      else let target =
          unwrap_or (and_then (get_header (codes "referer") request_headers) x.http.to_str)
            (codes "/") in
        record {
          status = 303;
          headers =
              insert_header (codes "location") (unwrap_or (x.http.from_str target) (codes "/"))
                (cookie_headers state candidate);
          body = [];
        }

  -- The profile of the user, if there is one.
  unfoldable pub save_locale : Ambient → Text → Handler R S (Unit {0})
  save_locale ambient candidate w = elim w.auth.user [
    | none ↦ (ok tt, w)
    | some user ↦
        on_db? x (update_preferences x.accounts ambient.now user.id (some candidate) none) w
  ]

  unfoldable pub update_locale : AppState → Ambient → Headers → Text → Handler R S Response
  unfolding save_locale
  update_locale state ambient request_headers locale =
      let candidate = trim locale in
      if not (contains supported candidate)
      then raise (validation (codes "unsupported locale: " ++ candidate))
      else do save_locale ambient candidate; pure (locale_response state request_headers candidate)
