-- ===== src/Observability/Stack.antt =====
-- Spans that nest, and the contexts of a thread.
use todo_rust.Prelude.{refl, ◌≡◌}
use todo_rust.Observability.{SpanRef, Thread, bare, no_span, on_enter, on_exit, traced}

-- Spans that are entered and left in a nested way.
pub data Nesting : Type 0 where
  leaf : Nesting
  within : SpanRef → Nesting → Nesting → Nesting

-- The span is known to the registry when it is entered.
abbrev pub IsKnown : SpanRef → Type 0
IsKnown no_span = ⊥
IsKnown bare = Unit
IsKnown (traced d) = Unit

abbrev pub AllKnown : Nesting → Type 0
AllKnown leaf = Unit
AllKnown (within s inner next) = IsKnown s × AllKnown inner × AllKnown next

-- The thread after the spans: each is entered, then those within it run, then it is left.
unfoldable pub run : Nesting → Thread → Thread
run leaf t = t
run (within s inner next) t = run next (on_exit (run inner (on_enter s t)))

on_exit-on_enter : (s : SpanRef) (t : Thread) → IsKnown s → on_exit (on_enter s t) ≡ t
unfolding on_enter on_exit
on_exit-on_enter no_span t h = absurd h
on_exit-on_enter bare t h = refl
on_exit-on_enter (traced d) t h = refl

-- Nested spans that the registry knows leave the current context and the stack of guards as they
-- found them.
pub run-AllKnown : (n : Nesting) (t : Thread) → AllKnown n → run n t ≡ t
unfolding run
run-AllKnown leaf t h = refl
run-AllKnown (within s inner next) t (p, h, k) =
    rw (run-AllKnown inner (on_enter s t) h, on_exit-on_enter s t p) (run-AllKnown next t k)
