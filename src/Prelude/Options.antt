-- ===== src/Prelude/Options.antt =====
-- `Option`'s methods, under the names of the standard library, and a conditional update.
use mathlib.Core.Path.{◌≡◌}
use mathlib.Core.Bool.{Bool, true, false}
use mathlib.Core.Option.{Option, none, some}
use mathlib.Core.List.{List, [], ◌∷◌}
use todo_rust.Prelude.Tests.{if◌then◌else◌}

module _ {A : Type 0} where
  abbrev pub is_some : Option A → Bool
  is_some none = false
  is_some (some a) = true

  abbrev pub unwrap_or : Option A → A → A
  unwrap_or none d = d
  unwrap_or (some a) d = a

  abbrev pub or_else : Option A → Option A → Option A
  or_else none o = o
  or_else (some a) o = some a

  abbrev pub keep_if : (A → Bool) → Option A → Option A
  keep_if p none = none
  keep_if p (some a) = if p a then some a else none

  -- `f` where the test holds, and nothing where it does not.
  abbrev pub when : Bool → (A → A) → A → A
  when b f a = if b then f a else a

abbrev pub push_some : {B : Type 0} → Option B → List B → List B
push_some none bs = bs
push_some (some b) bs = b ∷ bs

module _ {A B : Type 0} where
  abbrev pub map_option : (A → B) → Option A → Option B
  map_option f none = none
  map_option f (some a) = some (f a)

  abbrev pub and_then : Option A → (A → Option B) → Option B
  and_then none f = none
  and_then (some a) f = f a

  abbrev pub filter_map : (A → Option B) → List A → List B
  filter_map f [] = []
  filter_map f (a ∷ l) = push_some (f a) (filter_map f l)

pub some_inj : {A : Type 0} {a b : A} → some a ≡ some b → a ≡ b
some_inj h = cc

pub none_ne_some : {A : Type 0} {a : A} → ¬ (none ≡ some a)
none_ne_some h = cc
