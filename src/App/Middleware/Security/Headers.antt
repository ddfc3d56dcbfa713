-- ===== src/App/Middleware/Security/Headers.antt =====
-- The headers behind the layers of crates/app/src/middleware/security.rs.
use todo_rust.Prelude.{
  Bool, Option-cases, [], ap, arith, false, if◌then◌else◌, inl, inr, refl, some, true, unwrap_or,
  ◌∙◌, ◌∷◌, ◌≡◌,
}
use todo_rust.App.Http.{Headers, Response, get_header, insert_header, remove_header}
use todo_rust.App.Middleware.Security.{Layers, SetsMissing, apply_security_headers}
use todo_rust.Text.{Text, codes, text_eq}
use todo_rust.Text.Laws.{text_eq_iff, text_eq_refl, text_eq_sym}

pub get_header-insert_header :
    (name value : Text) (h : Headers) → get_header name (insert_header name value h) ≡ some value
unfolding get_header insert_header
get_header-insert_header name value h = rw (text_eq_refl name)

pub get_header-remove_header :
    (name another : Text) (h : Headers)
    → text_eq another name ≡ false
    → get_header another (remove_header name h) ≡ get_header another h
unfolding get_header remove_header
get_header-remove_header name another [] ne = refl
get_header-remove_header name another ((k, v) ∷ h) ne =
    ground
      (arith, get_header-remove_header name another h ne, text_eq_iff k name, text_eq_iff k another)

pub get_header-insert_another :
    (name another value : Text) (h : Headers)
    → text_eq another name ≡ false
    → get_header another (insert_header name value h) ≡ get_header another h
unfolding get_header insert_header
get_header-insert_another name another value h ne =
    rw (text_eq_sym name another ∙ ne) (get_header-remove_header name another h ne)

abbrev pub content_type_options : Text
content_type_options = codes "x-content-type-options"

abbrev pub referrer_policy : Text
referrer_policy = codes "referrer-policy"

abbrev pub permissions_policy : Text
permissions_policy = codes "permissions-policy"

abbrev pub transport_security : Text
transport_security = codes "strict-transport-security"

abbrev pub strict_origin : Text
strict_origin = codes "strict-origin-when-cross-origin"

abbrev pub no_sensors : Text
no_sensors = codes "geolocation=(), microphone=(), camera=()"

abbrev pub one_year : Text
one_year = codes "max-age=31536000; includeSubDomains"

module _ (l : Layers) (laws : SetsMissing l) where
  -- A layer leaves the header with the value that the response had, or with its own.
  if_not_present-get_header :
      (name value : Text) (r : Response)
      → get_header name (l.if_not_present name value r).headers
        ≡ some (unwrap_or (get_header name r.headers) value)
  if_not_present-get_header name value r = elim (Option-cases (get_header name r.headers)) [
    | inl e ↦ rw (laws.absent name value r e, get_header-insert_header name value r.headers, e)
    | inr (old, e) ↦ rw (laws.present name value old r e, e)
  ]

  if_not_present-another :
      (name another value : Text) (r : Response)
      → text_eq another name ≡ false
      → get_header another (l.if_not_present name value r).headers ≡ get_header another r.headers
  if_not_present-another name another value r ne = elim (Option-cases (get_header name r.headers)) [
    | inl e ↦
        rw (laws.absent name value r e, get_header-insert_another name another value r.headers ne)
    | inr (old, e) ↦ rw (laws.present name value old r e)
  ]

  -- The header has the value that the response before had, or the given one.
  abbrev pub Carries : Text → Text → Response → Response → Type 0
  Carries name value before after =
      get_header name after.headers ≡ some (unwrap_or (get_header name before.headers) value)

  -- A header that one layer sets, behind another layer.
  Carries-behind :
      (name value another value' : Text) (before mid : Response)
      → text_eq name another ≡ false
      → Carries name value before mid
      → Carries name value before (l.if_not_present another value' mid)
  Carries-behind name value another value' before mid ne h =
      if_not_present-another another name value' mid ne ∙ h

  -- A header that a layer sets, in front of another one.
  Carries-in_front :
      (name value another value' : Text) (r : Response)
      → text_eq name another ≡ false
      → Carries name value r (l.if_not_present name value (l.if_not_present another value' r))
  Carries-in_front name value another value' r ne =
      if_not_present-get_header name value (l.if_not_present another value' r)
      ∙ ap (λ old. some (unwrap_or old value)) (if_not_present-another another name value' r ne)

  abbrev two : Response → Response
  two r =
      l.if_not_present referrer_policy strict_origin
        (l.if_not_present content_type_options (codes "nosniff") r)

  abbrev basic : Response → Response
  basic r = l.if_not_present permissions_policy no_sensors (two r)

  -- The three headers that are always there.
  abbrev pub Basic : Response → Response → Type 0
  Basic before after =
      Carries content_type_options (codes "nosniff") before after
      × Carries referrer_policy strict_origin before after
      × Carries permissions_policy no_sensors before after

  two-another :
      (name : Text) (r : Response)
      → text_eq name referrer_policy ≡ false
      → text_eq name content_type_options ≡ false
      → get_header name (two r).headers ≡ get_header name r.headers
  two-another name r h k =
      if_not_present-another referrer_policy name strict_origin
        (l.if_not_present content_type_options (codes "nosniff") r) h
      ∙ if_not_present-another content_type_options name (codes "nosniff") r k

  basic-Basic : (r : Response) → Basic r (basic r)
  unfolding text_eq
  basic-Basic r =
      let inner = l.if_not_present content_type_options (codes "nosniff") r in
      (
        Carries-behind content_type_options (codes "nosniff") permissions_policy no_sensors r
            (two r) refl
            (Carries-behind content_type_options (codes "nosniff") referrer_policy strict_origin r
              inner refl (if_not_present-get_header content_type_options (codes "nosniff") r)),
        Carries-behind referrer_policy strict_origin permissions_policy no_sensors r (two r) refl (
            Carries-in_front referrer_policy strict_origin content_type_options (codes "nosniff") r
              refl),
        if_not_present-get_header permissions_policy no_sensors (two r)
            ∙ ap (λ old. some (unwrap_or old no_sensors))
                (two-another permissions_policy r refl refl),
      )

  basic-another :
      (r : Response)
      → get_header transport_security (basic r).headers ≡ get_header transport_security r.headers
  unfolding text_eq
  basic-another r =
      if_not_present-another permissions_policy transport_security no_sensors (two r) refl
      ∙ two-another transport_security r refl refl

  -- If a layer sets just the headers that are missing, a response has the three headers, each with
  -- the value that the handler gave it or else with the default; and the fourth one too where the
  -- cookies are secure, as the handler left it where they are not.
  pub apply_security_headers_lem :
      (secure : Bool) (r : Response)
      → Basic r (apply_security_headers l secure r)
        × (get_header transport_security (apply_security_headers l secure r).headers ≡ (
            if secure
            then some (unwrap_or (get_header transport_security r.headers) one_year)
            else get_header transport_security r.headers))
  unfolding apply_security_headers text_eq
  apply_security_headers_lem true r =
      let (nosniff, referrer, permissions) = basic-Basic r in
      (
        (
          Carries-behind content_type_options (codes "nosniff") transport_security one_year r
              (basic r) refl nosniff,
          Carries-behind referrer_policy strict_origin transport_security one_year r (basic r) refl
              referrer,
          Carries-behind permissions_policy no_sensors transport_security one_year r (basic r) refl
              permissions,
        ),
        if_not_present-get_header transport_security one_year (basic r)
            ∙ ap (λ old. some (unwrap_or old one_year)) (basic-another r),
      )
  apply_security_headers_lem false r = (basic-Basic r, basic-another r)
