-- ===== src/App/Middleware/Cookies/RoundTrip.antt =====
-- The cookie of the preferred locale (crates/app/src/routes/preferences.rs), and how the middleware
-- reads it (crates/app/src/middleware/i18n.rs).
use todo_rust.Prelude.{Option, none, some}
use todo_rust.App.Render.{override_from_profile}
use todo_rust.App.World.{External, RequestContext}
use todo_rust.Domain.{User}
use todo_rust.I18n.Tz.{Tz}
use todo_rust.Text.{Text}

-- The locale and the time zone that a page is rendered with: those of the request, or of the profile
-- of the user of the session.
abbrev pub page_context :
    {R S : Type 0} → External R S → Option User → RequestContext → RequestContext
page_context x none ctx = ctx
page_context x (some u) ctx = override_from_profile x u ctx
