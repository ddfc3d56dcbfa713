-- ===== src/App/Router/UniqueRoutes.antt =====
-- Two routes of crates/app/src/router.rs do not match one path.
use todo_rust.Prelude.{
  Bool, List, Option, Option-cases, [], all, and_parts, arith, false, if◌then◌else◌, inl, inr, map,
  not, refl, some, subst, true, ◌&&◌, ◌++◌, ◌==◌, ◌||◌, ◌∷◌, ◌≡◌,
}
use todo_rust.App.Router.{Route, Routing, find_route, routes}
use todo_rust.Text.{Text, is_empty, split, text_eq}
use todo_rust.Text.Laws.{text_eq_iff}

-- A segment of a pattern: ":id" is any text but the empty one, "*path" is all that is left, if there
-- is any, and behind a prefix anything may stand.
pub data Segment : Type 0 where
  literal : Text → Segment
  param catch_all anything : Segment

abbrev segment : Text → Segment
segment [] = literal []
segment (c ∷ s) = if c == b':' then param else if c == b'*' then catch_all else literal (c ∷ s)

unfoldable pub segments : Bool → Text → List Segment
segments nested pattern = map segment (split pattern b'/') ++ (if nested then anything ∷ [] else [])

-- Whether the segments of a path match those of a pattern.
abbrev pub follows : List Segment → List Text → Bool
follows [] [] = true
follows (literal t ∷ p) (s ∷ l) = text_eq t s && follows p l
follows (param ∷ p) (s ∷ l) = not (is_empty s) && follows p l
follows (catch_all ∷ p) (s ∷ l) = true
follows (anything ∷ p) l = true
follows _ _ = false

-- What the documentation of axum says of a path that matches.
pub record FollowsPatterns (axum : Routing) : Type 0 where
  pub matched :
      (nested : Bool) (pattern path : Text) (captures : List Text)
      → axum.matches nested pattern path ≡ some captures
      → follows (segments nested pattern) (split path b'/') ≡ true

-- Whether two patterns part at their first segments, or behind them.
abbrev heads : Segment → Segment → Bool → Bool
heads (literal t) (literal u) behind = not (text_eq t u) || behind
heads (literal t) param behind = is_empty t || behind
heads param (literal u) behind = is_empty u || behind
heads param param behind = behind
heads s u behind = false

abbrev is_anything : Segment → Bool
is_anything anything = true
is_anything s = false

-- Two patterns that have no path in common, as their segments show.
abbrev disjoint : List Segment → List Segment → Bool
disjoint [] [] = false
disjoint [] (s ∷ q) = not (is_anything s)
disjoint (s ∷ p) [] = not (is_anything s)
disjoint (s ∷ p) (u ∷ q) = heads s u (disjoint p q)

-- No path follows both.
Apart : List Segment → List Segment → Type 0
Apart p q = (l : List Text) → follows p l ≡ true → ¬ (follows q l ≡ true)

Apart-cons :
    (s u : Segment) (p q : List Segment)
    → heads s u (disjoint p q) ≡ true
    → (disjoint p q ≡ true → Apart p q)
    → (x : Text) (l : List Text) → follows (s ∷ p) (x ∷ l) ≡ true
    → ¬ (follows (u ∷ q) (x ∷ l) ≡ true)
unfolding Apart
Apart-cons (literal t) (literal u) p q d behind x l h k =
    let (e, h') = and_parts (text_eq t x) (follows p l) h in
    let (f, k') = and_parts (text_eq u x) (follows q l) k in
    behind (ground (arith, d, text_eq_iff t x, text_eq_iff u x, text_eq_iff t u, e, f)) l h' k'
Apart-cons (literal t) param p q d behind x l h k =
    let (e, h') = and_parts (text_eq t x) (follows p l) h in
    let (f, k') = and_parts (not (is_empty x)) (follows q l) k in
    behind (ground (arith, d, text_eq_iff t x, e, f)) l h' k'
Apart-cons param (literal u) p q d behind x l h k =
    let (e, h') = and_parts (not (is_empty x)) (follows p l) h in
    let (f, k') = and_parts (text_eq u x) (follows q l) k in
    behind (ground (arith, d, text_eq_iff u x, e, f)) l h' k'
Apart-cons param param p q d behind x l h k =
    let (e, h') = and_parts (not (is_empty x)) (follows p l) h in
    let (f, k') = and_parts (not (is_empty x)) (follows q l) k in behind d l h' k'
Apart-cons catch_all u p q d behind x l h k = absurd (ground (arith, d))
Apart-cons anything u p q d behind x l h k = absurd (ground (arith, d))
Apart-cons (literal t) catch_all p q d behind x l h k = absurd (ground (arith, d))
Apart-cons (literal t) anything p q d behind x l h k = absurd (ground (arith, d))
Apart-cons param catch_all p q d behind x l h k = absurd (ground (arith, d))
Apart-cons param anything p q d behind x l h k = absurd (ground (arith, d))

follows-nil : (s : Segment) (p : List Segment) → follows (s ∷ p) [] ≡ is_anything s
follows-nil (literal t) p = refl
follows-nil param p = refl
follows-nil catch_all p = refl
follows-nil anything p = refl

heads-anything : (s u : Segment) (behind : Bool) → heads s u behind ≡ true → is_anything s ≡ false
heads-anything (literal t) u behind h = refl
heads-anything param u behind h = refl
heads-anything catch_all u behind h = refl
heads-anything anything u behind h = absurd (ground (arith, h))

disjoint-Apart : (p q : List Segment) → disjoint p q ≡ true → Apart p q
unfolding Apart
disjoint-Apart [] [] d l h k = cc
disjoint-Apart [] (u ∷ q) d [] h k = absurd (ground (arith, d, follows-nil u q, k))
disjoint-Apart [] (u ∷ q) d (x ∷ l) h k = cc
disjoint-Apart (s ∷ p) [] d [] h k = absurd (ground (arith, d, follows-nil s p, h))
disjoint-Apart (s ∷ p) [] d (x ∷ l) h k = cc
disjoint-Apart (s ∷ p) (u ∷ q) d [] h k =
    absurd (ground (arith, follows-nil s p, h, heads-anything s u (disjoint p q) d))
disjoint-Apart (s ∷ p) (u ∷ q) d (x ∷ l) h k = Apart-cons s u p q d (disjoint-Apart p q) x l h k

-- Each route is disjoint from all that follow it.
unfoldable separate : List Route → Bool
separate [] = true
separate (r ∷ rs) =
    let later = separate rs in
    all (λ (q : Route). disjoint (segments r.nested r.pattern) (segments q.nested q.pattern)) rs
    && later

all_at :
    (test : Route → Bool) (before : List Route) (r : Route) (behind : List Route)
    → all test (before ++ (r ∷ behind)) ≡ true
    → test r ≡ true
all_at test [] r behind h = (and_parts (test r) (all test behind) h).0
all_at test (q ∷ before) r behind h =
    all_at test before r behind (and_parts (test q) (all test (before ++ (r ∷ behind))) h).1

routes-separate : (debug : Bool) → separate (routes debug) ≡ true
unfolding separate routes segments split text_eq
routes-separate true = refl
routes-separate false = refl

module _ (axum : Routing) (laws : FollowsPatterns axum) where
  abbrev matched_by : Route → Text → Option (List Text)
  matched_by r path = axum.matches r.nested r.pattern path

  find_separate :
      (path : Text) (r : Route) (captures : List Text) (behind before : List Route)
      → separate (before ++ (r ∷ behind)) ≡ true
      → matched_by r path ≡ some captures
      → find_route axum (before ++ (r ∷ behind)) path ≡ some (r, captures)
  unfolding find_route
  find_separate path r captures behind [] d h = rw (find_route, h) refl
  find_separate path r captures behind (q ∷ before) d h =
      let rest = before ++ (r ∷ behind) in
      let apart_from_q : Route → Bool =
        λ u. disjoint (segments q.nested q.pattern) (segments u.nested u.pattern) in
      let (here, later) =
        and_parts (all apart_from_q rest) (separate rest) (unfold separate in d) in
      elim (Option-cases (matched_by q path)) [
        | inl none' ↦ rw (find_route, none') (find_separate path r captures behind before later h)
        | inr (a, k) ↦
            let apart =
              disjoint-Apart (segments q.nested q.pattern) (segments r.nested r.pattern)
                (all_at apart_from_q before r behind here) in
            absurd (
              unfold Apart in
              apart (split path b'/') (laws.matched q.nested q.pattern path a k)
                (laws.matched r.nested r.pattern path captures h))
      ]

  -- Where a path that matches a pattern has its segments, a route of the program that matches a
  -- path is the one that is found for it, in whichever place it is registered: no path matches two
  -- routes.
  pub find_route_unique :
      (debug : Bool) (before behind : List Route) (r : Route) (path : Text) (captures : List Text)
      → routes debug ≡ before ++ (r ∷ behind)
      → axum.matches r.nested r.pattern path ≡ some captures
      → find_route axum (routes debug) path ≡ some (r, captures)
  find_route_unique debug before behind r path captures e h = rw e (
      find_separate path r captures behind before
        (subst (λ l. separate l ≡ true) e (routes-separate debug)) h)
