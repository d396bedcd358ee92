-- ===== src/Edify/Monad.antt =====
-- Laws of the interpreter's calls: the state is passed on, and the first `nullptr` ends a chain.
use recovery.Base.{◌≡◌, refl}
use recovery.Edify.Defs.{State, Outcome, null, value, fault, Action, and_then, ◌>>=◌}

pub and_then-congr :
    {A B : Type 0} (f g : A → Action B)
    → ((a : A) (s : State) → f a s ≡ g a s)
    → (r : Outcome A × State) → and_then f r ≡ and_then g r
and_then-congr f g h (null, s) = refl
and_then-congr f g h (value a, s) = h a s
and_then-congr f g h (fault, s) = refl

pub and_then_assoc :
    {A B C : Type 0} (f : A → Action B) (g : B → Action C) (r : Outcome A × State)
    → and_then g (and_then f r) ≡ and_then (λ a. f a >>= g) r
and_then_assoc f g (null, s) = refl
and_then_assoc f g (value a, s) = refl
and_then_assoc f g (fault, s) = refl
