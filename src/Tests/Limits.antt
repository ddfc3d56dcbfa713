-- ===== src/Tests/Limits.antt =====
-- The limiter of the login form, with five tokens, at two addresses.
use todo_rust.Prelude.{
  List, Option, [], arith, false, if◌then◌else◌, none, refl, some, true, unwrap_or, ℕ, ◌*◌, ◌++◌,
  ◌+◌, ◌-◌, ◌==◌, ◌∷◌, ◌≡◌, ◌≤◌,
}
use todo_rust.App.Http.{Headers, get_header}
use todo_rust.App.Middleware.RateLimit.{RateLimiter, bucket_of, check, client_ip}
use todo_rust.App.Middleware.RateLimit.Buckets.{check-other}
use todo_rust.App.Middleware.RateLimit.Forwarded.{NoneParses, client_ip_lem}
use todo_rust.App.Middleware.RateLimit.Patience.{after, check-after}
use todo_rust.App.Middleware.RateLimit.Window.{admitted, admitted-bounds}
use todo_rust.Text.{Text, codes, split, text_eq, trim}

abbrev limiter : RateLimiter
limiter = record {
  inner = [];
  one = 12;
  rate = 1;
  burst = 60;
  trust_forwarded_for = false;
  enabled = true;
}

admitted-bounds_example :
    admitted limiter 7 ((7, 0) ∷ (8, 0) ∷ (7, 5) ∷ []) * 12 ≤ 60 + (20 - 0) * 1
admitted-bounds_example =
    admitted-bounds 7 20 ((7, 0) ∷ (8, 0) ∷ (7, 5) ∷ []) limiter 0
      (omega arith, (omega arith, (omega arith, omega arith)))

check-other_example :
    (bucket_of (check limiter 7 3).0 8 4 ≡ bucket_of limiter 8 4)
    × ((check (check limiter 7 3).0 8 4).1 ≡ (check limiter 8 4).1)
check-other_example = check-other limiter 7 8 3 4 (ground arith)

check-after_example : (check (after (check limiter 7 3).0 ((8, 4) ∷ [])) 7 15).1 ≡ true
check-after_example =
    check-after limiter 7 3 15 ((8, 4) ∷ []) (omega arith) (ground arith, tt) (omega arith)

abbrev behind_proxy : RateLimiter
behind_proxy = record limiter { trust_forwarded_for = true }

-- The first character is the address; a minus is none.
abbrev parse_first : Text → Option ℕ
parse_first [] = none
parse_first (c ∷ s) = if c == b'-' then none else some c

abbrev forwarded : Headers
forwarded = (codes "x-forwarded-for", codes "1,2,-") ∷ []

client_ip_example :
    ((before behind : List Text) (s : Text) (ip : ℕ)
      → split (codes "1,2,-") b',' ≡ before ++ (s ∷ behind)
      → parse_first (trim s) ≡ some ip
      → NoneParses parse_first behind
      → client_ip (λ t. some t) parse_first behind_proxy (some 9) forwarded ≡ ip)
    × (NoneParses parse_first (split (codes "1,2,-") b',')
        → client_ip (λ t. some t) parse_first behind_proxy (some 9) forwarded
          ≡ unwrap_or (some 9) 0)
unfolding get_header text_eq
client_ip_example =
    client_ip_lem (λ t. some t) parse_first behind_proxy (some 9) forwarded (codes "1,2,-")
      (codes "1,2,-") refl refl refl
