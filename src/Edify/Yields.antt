-- ===== src/Edify/Yields.antt =====
-- edify/expr.cpp: what calls yield that do not fail, function by function.
use recovery.Base.{
  ◌≡◌, refl, sym, ap, ◌∙◌, Bool, not, true, false, ◌++◌, List, [], ◌∷◌, Text, codes, c_str,
  is_empty, is_infix, text_eq, if◌then◌else◌, append-nil, append_assoc,
}
use recovery.Edify.Defs.{
  Value, string, State, Event, value, Action, and_then, ◌>>=◌, pure, Arg, string_value, evaluate,
  expect_string,
}
use recovery.Edify.Builtins.{
  literal, concat_fn, sequence_fn, equality_fn, inequality_fn, logical_and_fn, logical_or_fn,
  logical_not_fn, if_else_fn, substring_fn, stdout_fn, read_args, arg_at,
}
use recovery.Edify.Args.{join, concat_fn-eq-read_args}

abbrev pub truth : Bool → Text
truth b = if b then codes "t" else []

-- The state with more events.
abbrev pub after : State → List Event → State
after s out = record s { events = s.events ++ out }

abbrev pub text_value : Text → Value
text_value t = record { type = string; bytes = t }

abbrev pub Yields : Action Value → Text → List Event → Type 0
Yields run t out = (s : State) → run s ≡ (value (text_value t), after s out)

abbrev Evaluates : Arg → Text → List Event → Type 0
Evaluates a t out = (s : State) → evaluate a s ≡ (value t, after s out)

after-after : (s : State) (out more : List Event) → after (after s out) more ≡ after s (out ++ more)
after-after s out more =
    ap (λ events. record s { events = events }) (append_assoc s.events out more)

Yields-Evaluates : (a : Arg) (t : Text) (out : List Event) → Yields a.run t out → Evaluates a t out
unfolding evaluate expect_string
Yields-Evaluates a t out h s = rw (h s) refl

-- A call, and what goes on with its text.
then-Yields :
    (a : Arg) (f : Text → Action Value) (t u : Text) (out more : List Event)
    → Yields a.run t out
    → Yields (f t) u more
    → Yields (evaluate a >>= f) u (out ++ more)
then-Yields a f t u out more h k s =
    rw (Yields-Evaluates a t out h s)
      (k (after s out) ∙ ap (λ s'. (value (text_value u), s')) (after-after s out more))

-- An argument's value, of whatever kind, is dropped, and what goes on is the second call.
pub sequence_fn-Yields :
    (name : Text) (a b : Arg) (t u : Text) (out more : List Event)
    → Yields a.run t out
    → Yields b.run u more
    → Yields (sequence_fn name (a ∷ b ∷ [])) u (out ++ more)
unfolding sequence_fn arg_at
sequence_fn-Yields name a b t u out more h k s =
    rw (h s) (k (after s out) ∙ ap (λ s'. (value (text_value u), s')) (after-after s out more))

truth-c_str : (b : Bool) → string_value (truth b) ≡ text_value (truth b)
unfolding string_value
truth-c_str true = refl
truth-c_str false = refl

-- Two arguments, one behind the other, and a test of their texts.
both-Yields :
    (a b : Arg) (f : Text → Text → Bool) (t u : Text) (out more : List Event)
    → Yields a.run t out
    → Yields b.run u more
    → Yields
        (evaluate a >>= λ l. evaluate b >>= λ r. pure (string_value (truth (f l r))))
        (truth (f t u))
        (out ++ more)
both-Yields a b f t u out more h k s =
    rw
      (Yields-Evaluates a t out h s, Yields-Evaluates b u more k (after s out), truth-c_str (f t u))
      (ap (λ s'. (value (text_value (truth (f t u))), s')) (after-after s out more))

pub equality_fn-Yields :
    (name : Text) (a b : Arg) (t u : Text) (out more : List Event)
    → Yields a.run t out
    → Yields b.run u more
    → Yields (equality_fn name (a ∷ b ∷ [])) (truth (text_eq t u)) (out ++ more)
unfolding equality_fn arg_at
equality_fn-Yields name a b t u out more h k = both-Yields a b text_eq t u out more h k

pub inequality_fn-Yields :
    (name : Text) (a b : Arg) (t u : Text) (out more : List Event)
    → Yields a.run t out
    → Yields b.run u more
    → Yields (inequality_fn name (a ∷ b ∷ [])) (truth (not (text_eq t u))) (out ++ more)
unfolding inequality_fn arg_at
inequality_fn-Yields name a b t u out more h k =
    both-Yields a b (λ l r. not (text_eq l r)) t u out more h k

pub substring_fn-Yields :
    (name : Text) (a b : Arg) (t u : Text) (out more : List Event)
    → Yields a.run t out
    → Yields b.run u more
    → Yields (substring_fn name (a ∷ b ∷ [])) (truth (is_infix t u)) (out ++ more)
unfolding substring_fn arg_at
substring_fn-Yields name a b t u out more h k = both-Yields a b is_infix t u out more h k

after-nil : (s : State) → after s [] ≡ s
after-nil s = ap (λ events. record s { events = events }) (append-nil s.events)

pub literal-Yields : (name : Text) (argv : List Arg) → Yields (literal name argv) (c_str name) []
unfolding literal string_value
literal-Yields name argv s = ap (λ s'. (value (text_value (c_str name)), s')) (sym (after-nil s))

pub stdout_fn-nil : (name : Text) → Yields (stdout_fn name []) [] []
unfolding stdout_fn string_value
stdout_fn-nil name s = ap (λ s'. (value (text_value []), s')) (sym (after-nil s))

pub stdout_fn-Yields :
    (name : Text) (a : Arg) (argv : List Arg) (t u : Text) (out more : List Event)
    → Yields a.run t out
    → Yields (stdout_fn name argv) u more
    → Yields (stdout_fn name (a ∷ argv)) u (out ++ (Event.printed (c_str t) ∷ more))
unfolding stdout_fn
stdout_fn-Yields name a argv t u out more h k s = rw (Yields-Evaluates a t out h s) (
    k (after (after s out) (Event.printed (c_str t) ∷ []))
    ∙ ap (λ s'. (value (text_value u), s'))
        (after-after (after s out) (Event.printed (c_str t) ∷ []) more
          ∙ after-after s out (Event.printed (c_str t) ∷ more)))

pub logical_not_fn-Yields :
    (name : Text) (a : Arg) (t : Text) (out : List Event)
    → Yields a.run t out
    → Yields (logical_not_fn name (a ∷ [])) (truth (is_empty t)) out
unfolding logical_not_fn arg_at
logical_not_fn-Yields name a t out h s =
    rw (Yields-Evaluates a t out h s) (ap (λ v. (value v, after s out)) (negated (is_empty t)))
  where
    negated : (b : Bool) → string_value (truth (not (not b))) ≡ text_value (truth b)
    negated true = truth-c_str true
    negated false = truth-c_str false

pub logical_and_fn-Yields :
    (name : Text) (a b : Arg) (t u : Text) (out more : List Event)
    → Yields a.run t out
    → is_empty t ≡ false
    → Yields b.run u more
    → Yields (logical_and_fn name (a ∷ b ∷ [])) u (out ++ more)
unfolding logical_and_fn arg_at
logical_and_fn-Yields name a b t u out more h e k = then-Yields a _ t u out more h (rw e k)

pub logical_and_fn-left :
    (name : Text) (a b : Arg) (t : Text) (out : List Event)
    → Yields a.run t out
    → is_empty t ≡ true
    → Yields (logical_and_fn name (a ∷ b ∷ [])) [] out
unfolding logical_and_fn arg_at string_value
logical_and_fn-left name a b t out h e s = rw (Yields-Evaluates a t out h s, e) refl

pub logical_or_fn-Yields :
    (name : Text) (a b : Arg) (t u : Text) (out more : List Event)
    → Yields a.run t out
    → is_empty t ≡ true
    → Yields b.run u more
    → Yields (logical_or_fn name (a ∷ b ∷ [])) u (out ++ more)
unfolding logical_or_fn arg_at
logical_or_fn-Yields name a b t u out more h e k = then-Yields a _ t u out more h (rw e k)

pub logical_or_fn-left :
    (name : Text) (a b : Arg) (t : Text) (out : List Event)
    → Yields a.run t out
    → is_empty t ≡ false
    → Yields (logical_or_fn name (a ∷ b ∷ [])) (c_str t) out
unfolding logical_or_fn arg_at string_value
logical_or_fn-left name a b t out h e s = rw (Yields-Evaluates a t out h s, e) refl

pub if_else_fn-if :
    (name : Text) (c a : Arg) (t u : Text) (out more : List Event)
    → Yields c.run t out
    → is_empty t ≡ false
    → Yields a.run u more
    → Yields (if_else_fn name (c ∷ a ∷ [])) u (out ++ more)
unfolding if_else_fn arg_at
if_else_fn-if name c a t u out more h e k = then-Yields c _ t u out more h (rw e k)

pub if_else_fn-if_not :
    (name : Text) (c a : Arg) (t : Text) (out : List Event)
    → Yields c.run t out
    → is_empty t ≡ true
    → Yields (if_else_fn name (c ∷ a ∷ [])) [] out
unfolding if_else_fn arg_at string_value
if_else_fn-if_not name c a t out h e s = rw (Yields-Evaluates c t out h s, e) refl

pub if_else_fn-then :
    (name : Text) (c a b : Arg) (t u : Text) (out more : List Event)
    → Yields c.run t out
    → is_empty t ≡ false
    → Yields a.run u more
    → Yields (if_else_fn name (c ∷ a ∷ b ∷ [])) u (out ++ more)
unfolding if_else_fn arg_at
if_else_fn-then name c a b t u out more h e k = then-Yields c _ t u out more h (rw e k)

pub if_else_fn-else :
    (name : Text) (c a b : Arg) (t u : Text) (out more : List Event)
    → Yields c.run t out
    → is_empty t ≡ true
    → Yields b.run u more
    → Yields (if_else_fn name (c ∷ a ∷ b ∷ [])) u (out ++ more)
unfolding if_else_fn arg_at
if_else_fn-else name c a b t u out more h e k = then-Yields c _ t u out more h (rw e k)

abbrev pub ReadAs : List Arg → List Text → List Event → Type 0
ReadAs argv ts out = (s : State) → read_args argv s ≡ (value ts, after s out)

pub concat_fn-Yields :
    (name : Text) (argv : List Arg) (ts : List Text) (out : List Event)
    → ReadAs argv ts out
    → Yields (concat_fn name argv) (c_str (join ts)) out
unfolding string_value
concat_fn-Yields name argv ts out h s =
    concat_fn-eq-read_args name argv s ∙ ap (and_then (λ us. pure (string_value (join us)))) (h s)

pub read_args-nil : ReadAs [] [] []
unfolding read_args
read_args-nil s = ap (λ s'. (value [], s')) (sym (after-nil s))

pub read_args-more :
    (a : Arg) (argv : List Arg) (t : Text) (ts : List Text) (out more : List Event)
    → Yields a.run t out
    → ReadAs argv ts more
    → ReadAs (a ∷ argv) (t ∷ ts) (out ++ more)
unfolding read_args
read_args-more a argv t ts out more h k s =
    rw (Yields-Evaluates a t out h s, k (after s out))
      (ap (λ s'. (value (t ∷ ts), s')) (after-after s out more))
