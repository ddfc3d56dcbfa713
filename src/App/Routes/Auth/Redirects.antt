-- ===== src/App/Routes/Auth/Redirects.antt =====
-- Where a form may send the browser (`safe_next` of crates/app/src/routes/auth.rs).
use todo_rust.Prelude.{[], arith, some, ◌↔◌, ◌∷◌, ◌≡◌, ◌≢◌}
use todo_rust.App.Routes.Auth.{safe_next}
use todo_rust.Text.{Text, starts_with, strip_prefix}

-- The first character is a slash, and the second, if there is one, is not.
abbrev pub IsSingleSlash : Text → Type 0
IsSingleSlash [] = ⊥
IsSingleSlash (c ∷ []) = c ≡ b'/'
IsSingleSlash (c ∷ d ∷ s) = (c ≡ b'/') × (d ≢ b'/')

-- `safe_next` lets through just the texts whose first character is a slash and whose second is not,
-- as they are.
pub safe_next_iff :
    (raw target : Text)
    → (safe_next (some raw) ≡ some target) ↔ (IsSingleSlash raw × (raw ≡ target))
unfolding safe_next starts_with strip_prefix
safe_next_iff [] target = ground arith
safe_next_iff (c ∷ []) target = ground arith
safe_next_iff (c ∷ d ∷ s) target = ground arith
