-- ===== src/Prelude/Exec.antt =====
-- Results that may be an error, and actions that change a state and may fail. What an action wrote
-- before it failed stays written, so the state comes back beside the error too.
use mathlib.Core.Path.{◌≡◌, refl, sym}
use mathlib.Core.Logic.{◌⊎◌, inl, inr}
use mathlib.Core.Option.{Option, none, some}

pub data Result {ℓ} (E A : Type ℓ) : Type ℓ where
  ok : A → Result E A
  err : E → Result E A

pub Result-cases {ℓ} :
    {E A : Type ℓ} (r : Result E A) → ((a : A) × (r ≡ ok a)) ⊎ ((e : E) × (r ≡ err e))
Result-cases (ok a) = inl (a, refl)
Result-cases (err e) = inr (e, refl)

abbrev pub Exec : Type 0 → Type 0 → Type 0 → Type 0
Exec E S A = S → Result E A × S

module _ {E S A : Type 0} where
  abbrev pub pure : A → Exec E S A
  pure a s = (ok a, s)

  abbrev pub raise : E → Exec E S A
  raise e s = (err e, s)

  -- `ok_or(e)?`
  abbrev pub ok_or : Option A → E → Exec E S A
  ok_or none e s = (err e, s)
  ok_or (some a) e s = (ok a, s)

-- `modify f` is a statement that cannot fail.
abbrev pub modify : {E S : Type 0} → (S → S) → Exec E S (Unit {0})
modify f s = (ok tt, f s)

abbrev pub continue : {E S A B : Type 0} → Result E A → (A → Exec E S B) → Exec E S B
continue (ok a) f s = f a s
continue (err e) f s = (err e, s)

infixl 5 ◌>>=◌ ◌>>◌
abbrev pub ◌>>=◌ : {E S A B : Type 0} → Exec E S A → (A → Exec E S B) → Exec E S B
◌>>=◌ m f s = let (r, s') = m s in continue r f s'

abbrev pub ◌>>◌ : {E S A B : Type 0} → Exec E S A → Exec E S B → Exec E S B
m >> k = m >>= λ _. k

abbrev pub map_err_result : {E F A : Type 0} → (E → F) → Result E A → Result F A
map_err_result f (ok a) = ok a
map_err_result f (err e) = err (f e)

-- `map_err`, and the conversion that `?` makes.
abbrev pub map_err : {E F S A : Type 0} → (E → F) → Exec E S A → Exec F S A
map_err f m s = let (r, s') = m s in (map_err_result f r, s')

-- Inversion of a successful bind.
pub >>=-eq-ok :
    {E S A B : Type 0} (m : Exec E S A) (f : A → Exec E S B) (s : S) {b : B} {s' : S}
    → (m >>= f) s ≡ (ok b, s')
    → (a : A) × (t : S) × (m s ≡ (ok a, t)) × (f a t ≡ (ok b, s'))
>>=-eq-ok {E} {S} {A} {B} m f s {b} {s'} h = go (m s).0 (m s).1 refl h
  where
    go :
        (r : Result E A) (t : S)
        → (r, t) ≡ m s
        → continue r f t ≡ (ok b, s')
        → (a : A) × (t : S) × (m s ≡ (ok a, t)) × (f a t ≡ (ok b, s'))
    go (ok a) t e k = (a, t, sym e, k)
    go (err x) t e k = cc
