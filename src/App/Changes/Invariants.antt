-- ===== src/App/Changes/Invariants.antt =====
-- What a change keeps: the rows of the other users, and the constraints of the tables.
use todo_rust.Prelude.{
  All, Bool, Bool-cases, List, Option, [], ap, arith, inl, inr, map, refl, select, some, sym, true,
  when, ◌++◌, ◌==◌, ◌∙◌, ◌∷◌, ◌≡◌, ◌≢◌, ◌⊎◌,
}
use todo_rust.App.Changes.{Change, new_account, new_preferences, todo_change, unchanged}
use todo_rust.Domain.{Time, User, UserId, Uuid}
use todo_rust.Storage.{Tables, TodoRow, UserRow}
use todo_rust.Storage.TodoRepo.{delete_row, insert_todo, update_row}
use todo_rust.Storage.TodoRepo.Calls.{
  Call, create_call, delete_call, effect, get_call, list_call, toggle_call, update_call,
}
use todo_rust.Storage.TodoRepo.Integrity.{HasIntegrity, effect-HasIntegrity, is_user}
use todo_rust.Storage.TodoRepo.Isolation.{others, others-effect}
use todo_rust.Storage.UserRepo.{Accounts, case_when, insert_user, new_user_row, update_user}
use todo_rust.Storage.UserRepo.Emails.{DistinctEmails, Unused, insert_user_keeps}
use todo_rust.Text.{Text}

-- The rows of a user.
abbrev pub owned : UserId → List TodoRow → List TodoRow
owned user = select (λ r. r.owner_id == user.uuid)

-- They are among those that are not of another user.
owned-others :
    (user another : UserId) (rows : List TodoRow)
    → user.uuid ≢ another.uuid
    → owned another (others user rows) ≡ owned another rows
owned-others user another [] h = refl
owned-others user another (r ∷ rows) h = ground (arith, owned-others user another rows h)

-- The calls of the todos leave the accounts alone.
effect-users : (user : UserId) (c : Call) (t : Tables) → (effect user c t).users ≡ t.users
unfolding effect
effect-users user list_call t = refl
effect-users user (get_call id) t = refl
effect-users user (create_call now fresh new) t = unfold insert_todo in ground arith
effect-users user (update_call now id changes) t = unfold update_row in ground arith
effect-users user (toggle_call now id) t = unfold update_row in ground arith
effect-users user (delete_call id) t = unfold delete_row in refl

module _ (x : Accounts) where
  -- Whoever the user of the session is, the rows of all others stay as they are.
  pub Change-owned :
      (user : Option User) (t t' : Tables) (another : UserId)
      → ((u : User) → user ≡ some u → u.id.uuid ≢ another.uuid)
      → Change x user t t'
      → owned another t'.todos ≡ owned another t.todos
  Change-owned user t t' another h (unchanged e) = rw e
  Change-owned user t t' another h (todo_change u c who e) =
      let apart = h u who in
      rw e (
        sym (owned-others u.id another (effect u.id c t).todos apart)
        ∙ ap (owned another) (others-effect u.id c t)
        ∙ owned-others u.id another t.todos apart)
  Change-owned user t t' another h (new_account now fresh email hash e) =
      unfold insert_user in ground (arith, e)
  Change-owned user t t' another h (new_preferences u now locale timezone who e) =
      unfold update_user in ground (arith, e)

  -- One more user leaves the owners what they were.
  is_user-append :
      (users : List UserRow) (row : UserRow) (id : Uuid)
      → is_user users id ≡ true
      → is_user (users ++ row ∷ []) id ≡ true
  is_user-append [] row id h = absurd (ground arith)
  is_user-append (u ∷ users) row id h = elim (Bool-cases (u.id == id)) [
    | inl e ↦ rw e refl
    | inr e ↦ rw e (is_user-append users row id (rw e at h))
  ]

  is_user-map :
      (f : UserRow → UserRow)
      → ((u : UserRow) → (f u).id ≡ u.id)
      → (users : List UserRow) (id : Uuid) → is_user (map f users) id ≡ is_user users id
  is_user-map f same [] id = refl
  is_user-map f same (u ∷ users) id = rw (same u, is_user-map f same users id)

  All-imp :
      (P Q : TodoRow → Type 0)
      → ((r : TodoRow) → P r → Q r)
      → (rows : List TodoRow) → All P rows
      → All Q rows
  All-imp P Q f [] h = tt
  All-imp P Q f (r ∷ rows) (p, h) = (f r p, All-imp P Q f rows h)

  -- Other users with at least the identifiers of the old ones.
  users-HasIntegrity :
      (t : Tables) (users : List UserRow)
      → ((id : Uuid) → is_user t.users id ≡ true → is_user users id ≡ true)
      → HasIntegrity t
      → HasIntegrity (record t { users = users })
  users-HasIntegrity t users more h = record {
    distinct = h.distinct;
    fitting = h.fitting;
    owned =
        All-imp (λ r. is_user t.users r.owner_id ≡ true) (λ r. is_user users r.owner_id ≡ true)
          (λ r k. more r.owner_id k) t.todos h.owned;
  }

  insert_user-cases :
      (now : Time) (id : UserId) (email hash : Text) (t : Tables)
      → ((insert_user x now id email hash t).1 ≡ t)
        ⊎ ((insert_user x now id email hash t).1
            ≡ record t { users = t.users ++ new_user_row now id email hash ∷ [] })
  unfolding insert_user
  insert_user-cases now id email hash t = ground arith

  insert_user-HasIntegrity :
      (now : Time) (id : UserId) (email hash : Text) (t : Tables)
      → HasIntegrity t
      → HasIntegrity (insert_user x now id email hash t).1
  insert_user-HasIntegrity now id email hash t h = elim (insert_user-cases now id email hash t) [
    | inl same ↦ rw same h
    | inr next ↦ rw next (
        users-HasIntegrity t (t.users ++ new_user_row now id email hash ∷ [])
          (is_user-append t.users (new_user_row now id email hash)) h)
  ]

  -- A change of users that keeps identifiers and addresses.
  DistinctEmails-map :
      (f : UserRow → UserRow)
      → ((u : UserRow) → (f u).email ≡ u.email)
      → (users : List UserRow) → DistinctEmails x users
      → DistinctEmails x (map f users)
  DistinctEmails-map f same [] h = tt
  DistinctEmails-map f same (u ∷ users) (free, h) =
      (unused users free, DistinctEmails-map f same users h)
    where
      unused : (l : List UserRow) → Unused x u.email l → Unused x (f u).email (map f l)
      unused [] k = tt
      unused (v ∷ l) (ne, k) = (rw (same u, same v) ne, unused l k)

  -- The integrity of the todos and the distinct addresses of the accounts.
  pub record Sound (t : Tables) : Type 0 where
    pub integrity : HasIntegrity t
    pub distinct : DistinctEmails x t.users

  module _ (now : Time) (id : UserId) (set_locale : Bool) (locale : Option Text)
      (set_timezone : Bool) (timezone : Option Text) where
    abbrev set_columns : UserRow → UserRow
    set_columns u =
        when (u.id == id.uuid)
          (λ (r : UserRow). record r {
            locale = case_when set_locale locale r.locale;
            timezone = case_when set_timezone timezone r.timezone;
            updated_at = now;
          })
          u

    set_columns-id : (u : UserRow) → (set_columns u).id ≡ u.id
    set_columns-id u = ground arith

    set_columns-email : (u : UserRow) → (set_columns u).email ≡ u.email
    set_columns-email u = ground arith

    update_user-Sound :
        (t : Tables)
        → Sound t
        → Sound (update_user now id set_locale locale set_timezone timezone t).1
    unfolding update_user
    update_user-Sound t h = record {
      integrity =
          users-HasIntegrity t (map set_columns t.users)
            (λ i k. is_user-map set_columns set_columns-id t.users i ∙ k) h.integrity;
      distinct = DistinctEmails-map set_columns set_columns-email t.users h.distinct;
    }

  -- Every change keeps them.
  pub Change-Sound : (user : Option User) (t t' : Tables) → Change x user t t' → Sound t → Sound t'
  Change-Sound user t t' (unchanged e) h = rw e h
  Change-Sound user t t' (todo_change u c who e) h = rw e (record {
    integrity = effect-HasIntegrity u.id c t h.integrity;
    distinct = rw (effect-users u.id c t) h.distinct;
  })
  Change-Sound user t t' (new_account now fresh email hash e) h = rw e (record {
    integrity = insert_user-HasIntegrity now fresh email hash t h.integrity;
    distinct = insert_user_keeps x now fresh email hash t h.distinct;
  })
  Change-Sound user t t' (new_preferences u now locale timezone who e) h =
      rw e (update_user-Sound now u.id locale.0 locale.1 timezone.0 timezone.1 t h)
