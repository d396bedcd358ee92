-- ===== src/Edify/Preserved.antt =====
-- edify/expr.cpp: the functions of the table leave alone what their arguments leave alone.
use recovery.Base.{
  ℕ, ◌≡◌, true, ◌++◌, List, [], ◌∷◌, Option, none, some, Text, is_empty, length, ◌==◌, c_str, ltb,
  arith,
}
use recovery.Base.Int.{ℤ}
use recovery.Edify.Defs.{
  Value, printed, slept, State, Outcome, null, value, fault, Action, ◌>>=◌, pure, Arg, evaluate,
  fail_with,
}
use recovery.Edify.Builtins.{
  arg_at, concat_loop, concat_fn, if_else_fn, abort_fn, abort_with, assert_fn, assert_message,
  assert_failed, stdout_fn, substring_fn, literal, read_args, sleep_fn, sleep_for, parse_or_fail,
  with_parsed, compare_texts, less_than_int_fn, greater_than_int_fn, substr,
}
use recovery.Edify.Frame.{
  Frame, Frame-refl, Frame-trans, error-Frame, output-Frame, Preserves, pure-Preserves,
  bind-Preserves, evaluate-Preserves, if-Preserves, ArgsPreserve, arg_at-Preserves,
  PreservesWithArgs,
}

fail_with-Preserves : (A : Type 0) (message : Text) → Preserves (fail_with {A = A} message)
unfolding fail_with
fail_with-Preserves A message = record { frame = λ s. error-Frame s message }

-- The argument at a place, as a string.
nth-Preserves : (argv : List Arg) (i : ℕ) → ArgsPreserve argv → Preserves (evaluate (arg_at argv i))
nth-Preserves argv i h = evaluate-Preserves (arg_at argv i) (arg_at-Preserves argv i h)

concat_loop-Preserves :
    (acc : Text) (argv : List Arg) → ArgsPreserve argv → Preserves (concat_loop acc argv)
unfolding concat_loop
concat_loop-Preserves acc [] h = pure-Preserves _
concat_loop-Preserves acc (a ∷ argv) h =
    bind-Preserves (evaluate a) _ (evaluate-Preserves a h.0)
      (λ str. concat_loop-Preserves (acc ++ str) argv h.1)

pub concat_fn-Preserves : PreservesWithArgs concat_fn
unfolding concat_fn
concat_fn-Preserves name argv h =
    if-Preserves (length argv == 0) _ _ (pure-Preserves _) (concat_loop-Preserves [] argv h)

pub if_else_fn-Preserves : PreservesWithArgs if_else_fn
unfolding if_else_fn
if_else_fn-Preserves name argv h = if-Preserves _ _ _ (fail_with-Preserves Value _) (
    bind-Preserves (evaluate (arg_at argv 0)) _ (nth-Preserves argv 0 h) (λ cond.
      if-Preserves _ _ _ (arg_at-Preserves argv 1 h)
        (if-Preserves _ _ _ (arg_at-Preserves argv 2 h) (pure-Preserves _))))

abort_with-Frame : (s : State) (r : Outcome Text × State) → Frame s r.1 → Frame s (abort_with r).1
abort_with-Frame s (value msg, t) h = Frame-trans h (error-Frame t msg)
abort_with-Frame s (null, t) h = Frame-trans h (error-Frame t _)
abort_with-Frame s (fault, t) h = h

zero_ltb-suc : (n : ℕ) → ltb 0 (ℕ.suc n) ≡ true
zero_ltb-suc n = ground arith

pub abort_fn-Preserves : PreservesWithArgs abort_fn
unfolding abort_fn
abort_fn-Preserves name [] h = record { frame = λ s. error-Frame s _ }
abort_fn-Preserves name (a ∷ argv) h = record {
  frame = λ s.
      rw (zero_ltb-suc (length argv))
        (abort_with-Frame s _ ((nth-Preserves (a ∷ argv) 0 h).frame s));
}

assert_message-Preserves : (o : Option Text) → Preserves (assert_message o)
assert_message-Preserves none = record { frame = Frame-refl }
assert_message-Preserves (some t) = fail_with-Preserves Value _

pub assert_fn-Preserves : PreservesWithArgs assert_fn
unfolding assert_fn
assert_fn-Preserves name [] h = pure-Preserves _
assert_fn-Preserves name (a ∷ argv) h =
    bind-Preserves (evaluate a) _ (evaluate-Preserves a h.0) (λ result.
      if-Preserves (is_empty result) (assert_failed a) _
        (record {
          frame = λ s. (assert_message-Preserves (substr s.script a.start a.stop)).frame s;
        })
        (assert_fn-Preserves name argv h.1))

pub stdout_fn-Preserves : PreservesWithArgs stdout_fn
unfolding stdout_fn
stdout_fn-Preserves name [] h = pure-Preserves _
stdout_fn-Preserves name (a ∷ argv) h =
    bind-Preserves (evaluate a) _ (evaluate-Preserves a h.0) (λ v. record {
      frame = λ s.
          Frame-trans (output-Frame s (printed (c_str v)))
            ((stdout_fn-Preserves name argv h.1).frame _);
    })

-- A function that reads its first two arguments as strings.
two_texts-Preserves :
    (f : Text → Text → Value) (argv : List Arg)
    → ArgsPreserve argv
    → Preserves (evaluate (arg_at argv 0) >>= λ l. evaluate (arg_at argv 1) >>= λ r. pure (f l r))
two_texts-Preserves f argv h =
    bind-Preserves (evaluate (arg_at argv 0)) _ (nth-Preserves argv 0 h) (λ l.
      bind-Preserves (evaluate (arg_at argv 1)) _ (nth-Preserves argv 1 h) (λ r. pure-Preserves _))

pub substring_fn-Preserves : PreservesWithArgs substring_fn
unfolding substring_fn
substring_fn-Preserves name argv h = two_texts-Preserves _ argv h

read_args-Preserves : (argv : List Arg) → ArgsPreserve argv → Preserves (read_args argv)
unfolding read_args
read_args-Preserves [] h = pure-Preserves _
read_args-Preserves (a ∷ argv) h = bind-Preserves (evaluate a) _ (evaluate-Preserves a h.0) (λ var.
    bind-Preserves (read_args argv) _ (read_args-Preserves argv h.1) (λ rest. pure-Preserves _))

with_parsed-Preserves :
    (t : Text) (k : ℤ → Action Value)
    → ((v : ℤ) → Preserves (k v))
    → (o : Option ℤ) → Preserves (with_parsed t k o)
with_parsed-Preserves t k h none = fail_with-Preserves Value _
with_parsed-Preserves t k h (some v) = h v

module _ (parse_int : ℤ → ℤ → Text → Option ℤ) where
  sleep_for-Preserves : (val : Text) (o : Option ℤ) → Preserves (sleep_for parse_int val o)
  sleep_for-Preserves val none = record { frame = Frame-refl }
  sleep_for-Preserves val (some v) = record { frame = λ s. output-Frame s (slept v) }

  pub sleep_fn-Preserves : PreservesWithArgs (sleep_fn parse_int)
  unfolding sleep_fn
  sleep_fn-Preserves name argv h =
      bind-Preserves (evaluate (arg_at argv 0)) _ (nth-Preserves argv 0 h)
        (λ val. sleep_for-Preserves val _)

  parse_or_fail-Preserves :
      (t : Text) (k : ℤ → Action Value)
      → ((v : ℤ) → Preserves (k v))
      → Preserves (parse_or_fail parse_int t k)
  parse_or_fail-Preserves t k h = with_parsed-Preserves t k h _

  compare_texts-Preserves : (ts : List Text) → Preserves (compare_texts parse_int ts)
  compare_texts-Preserves (l ∷ r ∷ []) =
      parse_or_fail-Preserves l _ (λ l_int. parse_or_fail-Preserves r _ (λ r_int. pure-Preserves _))
  compare_texts-Preserves _ = record { frame = Frame-refl }

  pub less_than_int_fn-Preserves : PreservesWithArgs (less_than_int_fn parse_int)
  unfolding less_than_int_fn
  less_than_int_fn-Preserves name argv h =
      if-Preserves _ _ _ (fail_with-Preserves Value _)
        (bind-Preserves (read_args argv) _ (read_args-Preserves argv h) compare_texts-Preserves)

  pub greater_than_int_fn-Preserves : PreservesWithArgs (greater_than_int_fn parse_int)
  unfolding greater_than_int_fn
  greater_than_int_fn-Preserves name argv h = if-Preserves _ _ _ (fail_with-Preserves Value _) (
      less_than_int_fn-Preserves name (arg_at argv 1 ∷ arg_at argv 0 ∷ [])
        (arg_at-Preserves argv 1 h, (arg_at-Preserves argv 0 h, tt)))

pub literal-Preserves : PreservesWithArgs literal
unfolding literal
literal-Preserves name argv h = pure-Preserves _
