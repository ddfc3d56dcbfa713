-- ===== src/Storage/TodoRepo/Lookups.antt =====
-- Which row a statement meets behind each change of the rows (crates/storage/src/todo_repo.rs).
use todo_rust.Prelude.{
  All, Bool, Bool-cases, List, Option, [], arith, find, if◌then◌else◌, inl, inr, map_option, none,
  not, refl, select, some, subst, true, ◌++◌, ◌==◌, ◌∷◌, ◌≡◌,
}
use todo_rust.Domain.{Time, TodoId, UserId}
use todo_rust.I18n.Locale.{first}
use todo_rust.Storage.{TodoRow}
use todo_rust.Storage.TodoRepo.{is_row, title_fits, touched, update_fits, updated}
use todo_rust.Storage.TodoRepo.Integrity.{HasDistinctIds, IsFresh}

module _ (user : UserId) (key : TodoId) where
  pub find-append :
      (row : TodoRow) (rows : List TodoRow)
      → IsFresh row.id rows
      → row.owner_id ≡ user.uuid
      → find (is_row user key) (rows ++ row ∷ [])
        ≡ (if key.uuid == row.id then some row else find (is_row user key) rows)
  unfolding is_row
  find-append row [] f h = ground arith
  find-append row (r ∷ rows) (ne, f) h = ground (arith, find-append row rows f h)

  pub find-updated_at :
      (now : Time) (set : TodoRow → TodoRow) (id : TodoId)
      → ((r : TodoRow) → (set r).id ≡ r.id)
      → ((r : TodoRow) → (set r).owner_id ≡ r.owner_id)
      → (rows : List TodoRow)
      → find (is_row user key) (updated now set user id rows) ≡ (
          if key.uuid == id.uuid
          then map_option (touched now set) (find (is_row user id) rows)
          else find (is_row user key) rows)
  unfolding is_row
  find-updated_at now set id same_id same_owner [] = ground arith
  find-updated_at now set id same_id same_owner (r ∷ rows) =
      ground (arith, same_id r, same_owner r, find-updated_at now set id same_id same_owner rows)

  pub find-deleted_at :
      (id : TodoId) (rows : List TodoRow)
      → find (is_row user key) (select (λ r. not (is_row user id r)) rows)
        ≡ (if key.uuid == id.uuid then none else find (is_row user key) rows)
  unfolding is_row
  find-deleted_at id [] = ground arith
  find-deleted_at id (r ∷ rows) = ground (arith, find-deleted_at id rows)

-- Whether the row that is met, if any, satisfies a test.
abbrev pub fits_met : (TodoRow → Bool) → Option TodoRow → Bool
fits_met p none = true
fits_met p (some row) = p row

module _ (now : Time) (set : TodoRow → TodoRow) (user : UserId) (id : TodoId) where
  update_fits-fresh :
      (rows : List TodoRow) → IsFresh id.uuid rows → update_fits now set user id rows ≡ true
  unfolding is_row
  update_fits-fresh [] f = refl
  update_fits-fresh (r ∷ rows) (ne, f) = ground (arith, update_fits-fresh rows f)

  -- With distinct identifiers, the check of an update is about one row.
  pub update_fits-find :
      (rows : List TodoRow)
      → HasDistinctIds rows
      → update_fits now set user id rows
        ≡ fits_met (λ r. title_fits (touched now set r).title) (find (is_row user id) rows)
  unfolding is_row
  update_fits-find [] h = refl
  update_fits-find (r ∷ rows) (fresh, h) = elim (Bool-cases (is_row user id r)) [
    | inl met ↦
        let same : r.id ≡ id.uuid = ground (arith, met) in
        ground (arith, met, update_fits-fresh rows (subst (λ j. IsFresh j rows) same fresh))
    | inr missed ↦ ground (arith, missed, update_fits-find rows h)
  ]

-- A change that keeps the titles passes the check.
pub update_fits-kept :
    (now : Time) (set : TodoRow → TodoRow) (user : UserId) (id : TodoId)
    → ((r : TodoRow) → (set r).title ≡ r.title)
    → (rows : List TodoRow) → All (λ r. title_fits r.title ≡ true) rows
    → update_fits now set user id rows ≡ true
update_fits-kept now set user id same [] h = refl
update_fits-kept now set user id same (r ∷ rows) (fits, h) =
    ground (arith, same r, update_fits-kept now set user id same rows h)

-- What holds of all rows holds of the one that is found.
pub All-find :
    (P : TodoRow → Type 0) (p : TodoRow → Bool) (rows : List TodoRow)
    → All P rows
    → (row : TodoRow) → find p rows ≡ some row
    → P row
All-find P p [] h row e = absurd (ground (arith, e))
All-find P p (r ∷ rows) (first, rest) row e = elim (Bool-cases (p r)) [
  | inl met ↦ subst P (ground (arith, e, met)) first
  | inr missed ↦ All-find P p rows rest row (ground (arith, e, missed))
]
