-- ===== src/App/Preview/Stems.antt =====
-- The stem of a template's path, which names the directory of its stories: the fuel that
-- `trim_end_matches` has is enough.
use mathlib.Core.List.{append-nil, append_assoc}
use todo_rust.Prelude.{
  Option-cases, [], ap, arith, false, inl, inr, length, length-append, refl, suc, sym, zero, ℕ,
  ◌++◌, ◌∙◌, ◌∷◌, ◌≡◌, ◌≤◌,
}
use todo_rust.App.Preview.Fixtures.{template_stem}
use todo_rust.Text.{Text, codes, ends_with, strip_suffix, text_eq, trim_end_matches, trim_ends}
use todo_rust.Text.Suffixes.{strip_suffix-eq-none, strip_suffix_sound}

-- `n` times the text.
abbrev times : ℕ → Text → Text
times zero s = []
times (suc n) s = s ++ times n s

times-next : (n : ℕ) (s : Text) → times n s ++ s ≡ s ++ times n s
times-next zero s = sym (append-nil s)
times-next (suc n) s = append_assoc s (times n s) s ∙ ap (λ t. s ++ t) (times-next n s)

abbrev html_end : Text
html_end = codes ".html"

-- A text without any end ".html", from which the other is made by adding such ends.
IsStem : Text → Text → Type 0
IsStem s stem = ((n : ℕ) × (s ≡ stem ++ times n html_end)) × (ends_with stem html_end ≡ false)

IsStem-append : (s rest stem : Text) → s ≡ rest ++ html_end → IsStem rest stem → IsStem s stem
unfolding IsStem
IsStem-append s rest stem h ((n, e), bare') = (
  (
    suc n,
    h
        ∙ ap (λ t. t ++ html_end) e
        ∙ append_assoc stem (times n html_end) html_end
        ∙ ap (λ t. stem ++ t) (times-next n html_end),
  ),
  bare',
)

trim_ends-IsStem : (fuel : ℕ) (s : Text) → length s ≤ fuel → IsStem s (trim_ends fuel s html_end)
unfolding trim_ends
trim_ends-IsStem zero [] h = unfold IsStem ends_with in ((0, refl), unfold text_eq in refl)
trim_ends-IsStem zero (c ∷ s) h = absurd (omega arith)
trim_ends-IsStem (suc fuel) s h = elim (Option-cases (strip_suffix s html_end)) [
  | inl e ↦
      unfold IsStem in
      rw (trim_ends, e) ((0, sym (append-nil s)), strip_suffix-eq-none s html_end e)
  | inr (rest, e) ↦
      let parts = strip_suffix_sound s html_end rest e in
      let long = length-append rest html_end in
      let shorter : length rest ≤ fuel = omega (arith, ap length parts, long) in
      let found : trim_ends (suc fuel) s html_end ≡ trim_ends fuel rest html_end =
        ground (arith, e) in
      rw found (
        IsStem-append s rest (trim_ends fuel rest html_end) parts
          (trim_ends-IsStem fuel rest shorter))
]

-- The loop that takes the ends ".html" off a path ends by its own test within as many rounds as the
-- path has characters: the path is the stem and some number of such ends, and the stem has none.
template_stem_lem :
    (path : Text)
    → ((n : ℕ) × (path ≡ template_stem path ++ times n html_end))
      × (ends_with (template_stem path) html_end ≡ false)
unfolding template_stem trim_end_matches IsStem
template_stem_lem path = trim_ends-IsStem (length path) path (omega arith)
