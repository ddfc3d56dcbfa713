-- ===== src/App/Preview/Order.antt =====
-- The order in which stories and templates are listed.
use mathlib.Core.List.{Perm}
use mathlib.Core.List.Perm
use todo_rust.Prelude.{
  All, Bool, Bool-cases, List, [], arith, false, inl, inr, refl, true, ◌∷◌, ◌≡◌,
}
use todo_rust.App.Preview.Fixtures.{insert_by, sort_by, story_leb, text_leb}
use todo_rust.Text.{Text, codes}
use todo_rust.Text.Laws.{text_eq_iff}

module _ {A : Type 0} (leb_by : A → A → Bool) where
  -- Each element may stand before all that follow it.
  abbrev pub IsSorted : List A → Type 0
  IsSorted [] = Unit
  IsSorted (a ∷ l) = All (λ b. leb_by a b ≡ true) l × IsSorted l

  insert_by-Perm : (a : A) (l : List A) → Perm (insert_by leb_by a l) (a ∷ l)
  unfolding insert_by
  insert_by-Perm a [] = Perm.refl _
  insert_by-Perm a (b ∷ l) = elim (Bool-cases (leb_by a b)) [
    | inl first' ↦ rw first' (Perm.refl _)
    | inr later ↦ rw later (Perm.trans (Perm.cons _ (insert_by-Perm a l)) (Perm.swap _ _ _))
  ]

  pub sort_by-Perm : (l : List A) → Perm (sort_by leb_by l) l
  unfolding sort_by
  sort_by-Perm [] = Perm.refl _
  sort_by-Perm (a ∷ l) =
      Perm.trans (insert_by-Perm a (sort_by leb_by l)) (Perm.cons _ (sort_by-Perm l))

  module _ (P : A → Type 0) where
    All-insert : (a : A) (l : List A) → P a → All P l → All P (insert_by leb_by a l)
    unfolding insert_by
    All-insert a [] h k = (h, tt)
    All-insert a (b ∷ l) h (p, k) = elim (Bool-cases (leb_by a b)) [
      | inl first' ↦ rw first' (h, (p, k))
      | inr later ↦ rw later (p, All-insert a l h k)
    ]

    pub All-sort_by : (l : List A) → All P l → All P (sort_by leb_by l)
    unfolding sort_by
    All-sort_by [] h = tt
    All-sort_by (a ∷ l) (p, h) = All-insert a (sort_by leb_by l) p (All-sort_by l h)

  module _ (total : (a b : A) → leb_by a b ≡ false → leb_by b a ≡ true)
      (trans : (a b c : A) → leb_by a b ≡ true → leb_by b c ≡ true → leb_by a c ≡ true) where
    All-before :
        (a b : A) (l : List A)
        → leb_by a b ≡ true
        → All (λ c. leb_by b c ≡ true) l
        → All (λ c. leb_by a c ≡ true) l
    All-before a b [] h k = tt
    All-before a b (c ∷ l) h (p, k) = (trans a b c h p, All-before a b l h k)

    insert_by-IsSorted : (a : A) (l : List A) → IsSorted l → IsSorted (insert_by leb_by a l)
    unfolding insert_by
    insert_by-IsSorted a [] h = (tt, tt)
    insert_by-IsSorted a (b ∷ l) (here, h) = elim (Bool-cases (leb_by a b)) [
      | inl first' ↦ rw first' ((first', All-before a b l first' here), (here, h))
      | inr later ↦
          rw later (
            All-insert (λ c. leb_by b c ≡ true) a l (total a b later) here,
            insert_by-IsSorted a l h,
          )
    ]

    pub sort_by-IsSorted : (l : List A) → IsSorted (sort_by leb_by l)
    unfolding sort_by
    sort_by-IsSorted [] = tt
    sort_by-IsSorted (a ∷ l) = insert_by-IsSorted a (sort_by leb_by l) (sort_by-IsSorted l)

pub text_leb_total : (s t : Text) → text_leb s t ≡ false → text_leb t s ≡ true
unfolding text_leb
text_leb_total [] t h = cc
text_leb_total (a ∷ s) [] h = refl
text_leb_total (a ∷ s) (b ∷ t) h = ground (arith, text_leb_total s t)

pub text_leb_trans :
    (s t u : Text) → text_leb s t ≡ true → text_leb t u ≡ true → text_leb s u ≡ true
unfolding text_leb
text_leb_trans [] t u h k = refl
text_leb_trans (a ∷ s) [] u h k = cc
text_leb_trans (a ∷ s) (b ∷ t) [] h k = cc
text_leb_trans (a ∷ s) (b ∷ t) (c ∷ u) h k = ground (arith, text_leb_trans s t u)

pub story_leb_total : (s t : Text) → story_leb s t ≡ false → story_leb t s ≡ true
unfolding story_leb
story_leb_total s t h = ground (arith, text_leb_total s t)

pub story_leb_trans :
    (s t u : Text) → story_leb s t ≡ true → story_leb t u ≡ true → story_leb s u ≡ true
unfolding story_leb
story_leb_trans s t u h k = ground (
  arith,
  text_leb_trans s t u,
  text_eq_iff s (codes "default"),
  text_eq_iff t (codes "default"),
  text_eq_iff u (codes "default"),
)
