-- ===== src/Blockimg/Keeps.antt =====
-- updater/blockimg.cpp: what a call leaves true of the state, and how it follows from the calls that the
-- call is made of.
use recovery.Base.{Bool, true, false, Text, if◌then◌else◌}
use recovery.Blockimg.Machine.{
  CommandParameters, Machine, Outcome, ok, failed, exited, fault, hung, M, and_then, ◌>>=◌, ◌>>◌,
  pure, done, get, stop, modify, set_params, caught, attempt, with_own, with_buffer, or_fail,
  require,
}

-- However the call ends, it keeps the invariant.
pub record Keeps (I : Machine → Type 0) {A : Type 0} (f : M A) : Type 0 where
  pub keeps : (m : Machine) → I m → I (f m).1

caught-keeps :
    (I : Machine → Type 0) {A : Type 0} (r : Outcome A × Machine) → I r.1 → I (caught r).1
caught-keeps I (ok a, m) h = h
caught-keeps I (failed, m) h = h
caught-keeps I (exited, m) h = h
caught-keeps I (fault, m) h = h
caught-keeps I (hung, m) h = h

module _ {I : Machine → Type 0} where
  module _ {A B : Type 0} where
    and_then-keeps :
        (g : A → M B) (r : Outcome A × Machine)
        → I r.1
        → ((a : A) → Keeps I (g a))
        → I (and_then g r).1
    and_then-keeps g (ok a, m) h k = (k a).keeps m h
    and_then-keeps g (failed, m) h k = h
    and_then-keeps g (exited, m) h k = h
    and_then-keeps g (fault, m) h k = h
    and_then-keeps g (hung, m) h k = h

    pub bind-Keeps :
        {f : M A} {g : A → M B} → Keeps I f → ((a : A) → Keeps I (g a)) → Keeps I (f >>= g)
    unfolding ◌>>=◌
    bind-Keeps {f} {g} h k = record { keeps = λ m i. and_then-keeps g (f m) (h.keeps m i) k }

  pub then-Keeps :
      {B : Type 0} {f : M (Unit {0})} {g : M B} → Keeps I f → Keeps I g → Keeps I (f >> g)
  unfolding ◌>>◌
  then-Keeps h k = bind-Keeps h (λ a. k)

  module _ {A : Type 0} where
    pub get-Keeps :
        {g : Machine → M A} → ((m : Machine) → I m → Keeps I (g m)) → Keeps I (get >>= g)
    unfolding ◌>>=◌ get
    get-Keeps k = record { keeps = λ m i. (k m i).keeps m i }

    pub pure-Keeps : (a : A) → Keeps I (pure a)
    unfolding pure
    pure-Keeps a = record { keeps = λ m i. i }

    pub stop-Keeps : (r : Outcome A) → Keeps I (stop r)
    unfolding stop
    stop-Keeps r = record { keeps = λ m i. i }

    pub if-Keeps : (b : Bool) {f g : M A} → Keeps I f → Keeps I g → Keeps I (if b then f else g)
    if-Keeps true h k = h
    if-Keeps false h k = k

    pub attempt-Keeps : {f : M A} → Keeps I f → Keeps I (attempt f)
    unfolding attempt
    attempt-Keeps {f} h = record { keeps = λ m i. caught-keeps I (f m) (h.keeps m i) }

    -- A call over another buffer, where the invariant does not mention the buffer.
    with_own-keeps :
        ((m : Machine) (b : Text) → I m → I (record m { buffer = b }))
        → (own : Text) (r : Outcome A × Machine) → I r.1
        → I (with_own own r).1
    with_own-keeps free own (ok a, m) h = free m own h
    with_own-keeps free own (failed, m) h = free m own h
    with_own-keeps free own (exited, m) h = h
    with_own-keeps free own (fault, m) h = h
    with_own-keeps free own (hung, m) h = h

    pub with_buffer-Keeps :
        ((m : Machine) (b : Text) → I m → I (record m { buffer = b }))
        → (other : Text) {f : M A} → Keeps I f
        → Keeps I (with_buffer other f)
    unfolding with_buffer
    with_buffer-Keeps free other {f} h = record {
      keeps = λ m i. with_own-keeps free m.buffer _ (h.keeps _ (free m other i));
    }

  pub done-Keeps : Keeps I done
  unfolding done
  done-Keeps = pure-Keeps tt

  pub modify-Keeps : (f : Machine → Machine) → ((m : Machine) → I m → I (f m)) → Keeps I (modify f)
  unfolding modify
  modify-Keeps f k = record { keeps = k }

  pub set_params-Keeps :
      (f : CommandParameters → CommandParameters)
      → ((m : Machine) → I m → I (record m { params = f m.params }))
      → Keeps I (set_params f)
  unfolding set_params
  set_params-Keeps f k = record { keeps = k }

  pub require-Keeps :
      {f : M Bool} {failure : M (Unit {0})}
      → Keeps I f
      → Keeps I failure
      → Keeps I (require f failure)
  unfolding require or_fail
  require-Keeps {f} {failure} h k = bind-Keeps h tested
    where
      tested : (b : Bool) → Keeps I (or_fail failure b)
      tested true = k
      tested false = done-Keeps
