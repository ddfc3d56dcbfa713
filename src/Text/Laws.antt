-- ===== src/Text/Laws.antt =====
-- Facts about the operations on text.
use todo_rust.Prelude.{
  Option-cases, [], all, and_parts, arith, inl, inr, none, refl, some, subst, true, ℕ, ◌++◌, ◌↔◌,
  ◌∷◌, ◌≡◌, ◌≢◌,
}
use todo_rust.Text.{
  Text, before_last, is_whitespace, rsplit_once, strip_prefix, text_eq, trim, trim_start,
}

pub text_eq_iff : (s t : Text) → (text_eq s t ≡ true) ↔ (s ≡ t)
unfolding text_eq
text_eq_iff [] [] = (λ h. refl, λ h. refl)
text_eq_iff [] (b ∷ t) = ground arith
text_eq_iff (a ∷ s) [] = ground arith
text_eq_iff (a ∷ s) (b ∷ t) = ground (arith, text_eq_iff s t)

pub text_eq_refl : (s : Text) → text_eq s s ≡ true
text_eq_refl s = (text_eq_iff s s).1 refl

pub text_eq_sym : (s t : Text) → text_eq s t ≡ text_eq t s
text_eq_sym s t = ground (arith, text_eq_iff s t, text_eq_iff t s)

-- No character of the text is `c`.
abbrev pub Avoids : ℕ → Text → Type 0
Avoids c [] = Unit
Avoids c (d ∷ s) = (d ≢ c) × Avoids c s

pub Avoids-append : (c : ℕ) (s t : Text) → Avoids c s → Avoids c t → Avoids c (s ++ t)
Avoids-append c [] t h k = k
Avoids-append c (d ∷ s) t (p, h) k = (p, Avoids-append c s t h k)

-- A text without the separator is not parted.
pub rsplit_once-eq-none : (b : Text) (sep : ℕ) → Avoids sep b → rsplit_once b sep ≡ none
unfolding rsplit_once
rsplit_once-eq-none [] sep h = refl
rsplit_once-eq-none (c ∷ b) sep (p, h) = rw (rsplit_once-eq-none b sep h) (ground arith)

-- The last separator parts a text.
pub rsplit_once-append :
    (a b : Text) (sep : ℕ) → Avoids sep b → rsplit_once (a ++ (sep ∷ b)) sep ≡ some (a, b)
unfolding rsplit_once
rsplit_once-append [] b sep h = rw (rsplit_once-eq-none b sep h) (ground arith)
rsplit_once-append (c ∷ a) b sep h = rw (rsplit_once-append a b sep h)

before_last-none :
    (sep c : ℕ) (s a b : Text)
    → before_last sep c s none ≡ some (a, b)
    → (c ≡ sep) × (a ≡ []) × (s ≡ b)
before_last-none sep c s a b h = ground arith

before_last-some :
    (sep c : ℕ) (s p q a b : Text)
    → before_last sep c s (some (p, q)) ≡ some (a, b)
    → (c ∷ p ≡ a) × (q ≡ b)
before_last-some sep c s p q a b h = ground arith

pub Avoids-of_rsplit_once : (s : Text) (sep : ℕ) → rsplit_once s sep ≡ none → Avoids sep s
Avoids-of_rsplit_once [] sep h = tt
Avoids-of_rsplit_once (c ∷ s) sep h = elim (Option-cases (rsplit_once s sep)) [
  | inl e ↦ (unfold rsplit_once in ground arith, Avoids-of_rsplit_once s sep e)
  | inr ((p, q), e) ↦ absurd (unfold rsplit_once in ground arith)
]

-- What a split at the last separator found.
pub rsplit_once_sound :
    (s : Text) (sep : ℕ) (a b : Text)
    → rsplit_once s sep ≡ some (a, b)
    → (s ≡ a ++ (sep ∷ b)) × Avoids sep b
unfolding rsplit_once
rsplit_once_sound [] sep a b h = cc
rsplit_once_sound (c ∷ s) sep a b h = elim (Option-cases (rsplit_once s sep)) [
  | inl e ↦
      let (same, nil, rest) = before_last-none sep c s a b (rw e at h) in
      (rw (nil, same, rest), subst (Avoids sep) rest (Avoids-of_rsplit_once s sep e))
  | inr ((p, q), e) ↦
      let (front, back) = before_last-some sep c s p q a b (rw e at h) in
      let (whole, clear) = rsplit_once_sound s sep p q e in
      (rw (← front, ← back, whole), rw (← back) clear)
]

pub strip_prefix-append : (p s : Text) → strip_prefix (p ++ s) p ≡ some s
unfolding strip_prefix
strip_prefix-append [] [] = refl
strip_prefix-append [] (c ∷ s) = refl
strip_prefix-append (c ∷ p) s = ground (arith, strip_prefix-append p s)

-- White space at the start is taken off, whatever stands there.
pub trim_start-eq-nil : (s : Text) → all is_whitespace s ≡ true → trim_start s ≡ []
unfolding trim_start
trim_start-eq-nil [] h = refl
trim_start-eq-nil (c ∷ s) h =
    rw ((and_parts (is_whitespace c) (all is_whitespace s) h).0)
      (trim_start-eq-nil s (and_parts (is_whitespace c) (all is_whitespace s) h).1)

-- A text of white space only trims to nothing.
pub trim-eq-nil : (s : Text) → all is_whitespace s ≡ true → trim s ≡ []
unfolding trim
trim-eq-nil s h = rw (trim_start-eq-nil s h)
