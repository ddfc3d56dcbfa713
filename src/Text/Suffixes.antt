-- ===== src/Text/Suffixes.antt =====
-- Ends of texts.
use todo_rust.Prelude.{
  Bool-cases, Option-cases, [], arith, false, inl, inr, none, refl, some, true, ◌++◌, ◌∷◌, ◌≡◌,
}
use todo_rust.Text.{Text, ends_with, strip_suffix, text_eq}
use todo_rust.Text.Laws.{text_eq_iff, text_eq_refl}

-- A text of white space or not is `rest` with the end behind it, if the end can be taken off.
pub strip_suffix_sound : (s p rest : Text) → strip_suffix s p ≡ some rest → s ≡ rest ++ p
unfolding strip_suffix
strip_suffix_sound [] p rest h = ground (arith, text_eq_iff [] p)
strip_suffix_sound (c ∷ s) p rest h = elim (Bool-cases (text_eq (c ∷ s) p)) [
  | inl e ↦ ground (arith, text_eq_iff (c ∷ s) p)
  | inr e ↦ elim (Option-cases (strip_suffix s p)) [
    | inl k ↦ absurd (ground arith)
    | inr (r, k) ↦
        let behind = strip_suffix_sound s p r k in
        let same : c ∷ r ≡ rest = ground arith in rw (← same, behind)
  ]
]

-- Where none can be taken off the text has no such end.
pub strip_suffix-eq-none : (s p : Text) → strip_suffix s p ≡ none → ends_with s p ≡ false
unfolding strip_suffix ends_with
strip_suffix-eq-none [] p h = ground arith
strip_suffix-eq-none (c ∷ s) p h = elim (Option-cases (strip_suffix s p)) [
  | inl k ↦ ground (arith, strip_suffix-eq-none s p k)
  | inr (r, k) ↦ absurd (ground arith)
]

pub ends_with-append : (s p : Text) → ends_with (s ++ p) p ≡ true
unfolding ends_with
ends_with-append [] [] = unfold text_eq in refl
ends_with-append [] (c ∷ p) = rw (text_eq_refl (c ∷ p))
ends_with-append (c ∷ s) p = ground (arith, ends_with-append s p)
