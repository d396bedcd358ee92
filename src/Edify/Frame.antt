-- ===== src/Edify/Frame.antt =====
-- edify/expr.cpp: what evaluation leaves alone. The script is a constant reference, only
-- `ErrorAbort` and the error paths write the messages, and output is only appended.
use recovery.Base.{
  ℕ, ◌≡◌, refl, ◌∙◌, ap, Bool, true, false, ◌++◌, List, [], ◌∷◌, Text, append-nil, append_assoc,
  if◌then◌else◌,
}
use recovery.Edify.Defs.{
  Value, ValueType, string, Event, State, Outcome, null, value, fault, Action, and_then, ◌>>=◌,
  pure, Arg, Function, evaluate, string_or_abort, expect_string, error_abort,
}
use recovery.ErrorCode.{CauseCode}
use recovery.Edify.Builtins.{arg_at}

-- `t` differs from `s` at most in the error report and in output behind the old output.
pub record Frame (s t : State) : Type 0 where
  pub same_script : t.script ≡ s.script
  pub same_error_code : t.error_code ≡ s.error_code
  pub same_retry : t.is_retry ≡ s.is_retry
  pub output : List Event
  pub appended : t.events ≡ s.events ++ output

-- A call that leaves alone all but those, however it ends.
pub record Preserves {A : Type 0} (m : Action A) : Type 0 where
  pub frame : (s : State) → Frame s (m s).1

pub Frame-refl : (s : State) → Frame s s
Frame-refl s = record {
  same_script = refl;
  same_error_code = refl;
  same_retry = refl;
  output = [];
  appended = rw append-nil;
}

pub Frame-trans : {s t u : State} → Frame s t → Frame t u → Frame s u
Frame-trans {s} f g = record {
  same_script = g.same_script ∙ f.same_script;
  same_error_code = g.same_error_code ∙ f.same_error_code;
  same_retry = g.same_retry ∙ f.same_retry;
  output = f.output ++ g.output;
  appended =
      g.appended
      ∙ ap (λ (l : List Event). l ++ g.output) f.appended
      ∙ append_assoc s.events f.output g.output;
}

module _ {A B : Type 0} where
  and_then-Frame :
      (f : A → Action B) (s : State) (r : Outcome A × State)
      → Frame s r.1
      → ((a : A) → Preserves (f a))
      → Frame s (and_then f r).1
  and_then-Frame f s (null, t) h k = h
  and_then-Frame f s (value a, t) h k = Frame-trans h ((k a).frame t)
  and_then-Frame f s (fault, t) h k = h

  pub bind-Preserves :
      (m : Action A) (f : A → Action B)
      → Preserves m
      → ((a : A) → Preserves (f a))
      → Preserves (m >>= f)
  bind-Preserves m f h k = record { frame = λ s. and_then-Frame f s (m s) (h.frame s) k }

pub pure-Preserves : {A : Type 0} (a : A) → Preserves (pure a)
pure-Preserves a = record { frame = Frame-refl }

pub error-Frame : (s : State) (message : Text) → Frame s (record s { errmsg = message })
error-Frame s message = record {
  same_script = refl;
  same_error_code = refl;
  same_retry = refl;
  output = [];
  appended = rw append-nil;
}

pub output-Frame : (s : State) (e : Event) → Frame s (record s { events = s.events ++ e ∷ [] })
output-Frame s e = record {
  same_script = refl;
  same_error_code = refl;
  same_retry = refl;
  output = e ∷ [];
  appended = refl;
}

error_abort-Frame :
    (A : Type 0) (s : State) (c : CauseCode) (message : Text)
    → Frame s (error_abort {A = A} c message s).1
unfolding error_abort
error_abort-Frame A s c message = record {
  same_script = refl;
  same_error_code = refl;
  same_retry = refl;
  output = [];
  appended = rw append-nil;
}

string_or_abort-Preserves : (ty : ValueType) (bytes : Text) → Preserves (string_or_abort ty bytes)
unfolding error_abort
string_or_abort-Preserves string bytes = record { frame = Frame-refl }
string_or_abort-Preserves other bytes = record { frame = λ s. error_abort-Frame Text s _ _ }

expect_string-Preserves : (v : Value) → Preserves (expect_string v)
unfolding expect_string
expect_string-Preserves v = string_or_abort-Preserves v.type v.bytes

pub evaluate-Preserves : (a : Arg) → Preserves a.run → Preserves (evaluate a)
unfolding evaluate
evaluate-Preserves a h = bind-Preserves a.run expect_string h expect_string-Preserves

pub if-Preserves :
    {A : Type 0} (b : Bool) (m n : Action A)
    → Preserves m
    → Preserves n
    → Preserves (if b then m else n)
if-Preserves true m n h k = h
if-Preserves false m n h k = k

abbrev pub All : {A : Type 0} → (A → Type 0) → List A → Type 0
All P [] = Unit
All P (x ∷ xs) = P x × All P xs

abbrev pub ArgsPreserve : List Arg → Type 0
ArgsPreserve argv = All (λ a. Preserves a.run) argv

pub arg_at-Preserves : (argv : List Arg) (i : ℕ) → ArgsPreserve argv → Preserves (arg_at argv i).run
unfolding arg_at
arg_at-Preserves [] i h = record { frame = Frame-refl }
arg_at-Preserves (a ∷ argv) ℕ.zero h = h.0
arg_at-Preserves (a ∷ argv) (ℕ.suc i) h = arg_at-Preserves argv i h.1

-- A function that leaves alone what its arguments leave alone.
abbrev pub PreservesWithArgs : Function → Type 0
PreservesWithArgs fn =
    (name : Text) (argv : List Arg) → ArgsPreserve argv → Preserves (fn name argv)
