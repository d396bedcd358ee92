-- ===== src/Edify/Runs.antt =====
-- edify/expr.cpp: the meaning of scripts that do not fail, by rules, against `EvaluateValue`.
use recovery.Base.{
  ℕ, ◌≡◌, refl, ◌∙◌, not, true, false, ◌++◌, List, [], ◌∷◌, Text, c_str, is_empty, is_infix,
  text_eq,
}
use recovery.Edify.Defs.{
  State, Event, value, Expr, expr, Args, nil, cons, evaluate_value, arguments, argument,
}
use recovery.Edify.Builtins.{
  literal, concat_fn, sequence_fn, equality_fn, inequality_fn, logical_and_fn, logical_or_fn,
  logical_not_fn, if_else_fn, substring_fn, stdout_fn,
}
use recovery.Edify.Args.{join}
use recovery.Edify.Yields.{
  truth, after, text_value, Yields, ReadAs, literal-Yields, concat_fn-Yields, read_args-nil,
  read_args-more, sequence_fn-Yields, equality_fn-Yields, inequality_fn-Yields, stdout_fn-nil,
  stdout_fn-Yields, logical_not_fn-Yields, logical_and_fn-Yields, logical_and_fn-left,
  logical_or_fn-Yields, logical_or_fn-left, if_else_fn-if, if_else_fn-if_not, substring_fn-Yields,
  if_else_fn-then, if_else_fn-else,
}

-- A script of literals, operators, conditions and calls of `concat`, `is_substring` and `stdout`; the text
-- that it stands for, and what it prints, from left to right. The parts that are not evaluated are any
-- scripts.
mutual
  pub data Runs : Expr → Text → List Event → Type 0 where
    runs_literal :
        {name : Text} {argv : Args} {i j : ℕ} → Runs (expr literal name argv i j) (c_str name) []
    runs_concat :
        {name : Text} {argv : Args} {i j : ℕ} {ts : List Text} {out : List Event}
        → AllRun argv ts out
        → Runs (expr concat_fn name argv i j) (c_str (join ts)) out
    runs_sequence :
        {name : Text} {a b : Expr} {i j : ℕ} {t u : Text} {out more : List Event}
        → Runs a t out
        → Runs b u more
        → Runs (expr sequence_fn name (cons a (cons b nil)) i j) u (out ++ more)
    runs_equality :
        {name : Text} {a b : Expr} {i j : ℕ} {t u : Text} {out more : List Event}
        → Runs a t out
        → Runs b u more
        → Runs (expr equality_fn name (cons a (cons b nil)) i j) (truth (text_eq t u)) (out ++ more)
    runs_inequality :
        {name : Text} {a b : Expr} {i j : ℕ} {t u : Text} {out more : List Event}
        → Runs a t out
        → Runs b u more
        → Runs
            (expr inequality_fn name (cons a (cons b nil)) i j)
            (truth (not (text_eq t u)))
            (out ++ more)
    runs_stdout : {name : Text} {i j : ℕ} → Runs (expr stdout_fn name nil i j) [] []
    runs_stdout_more :
        {name : Text} {a : Expr} {argv : Args} {i j : ℕ} {t u : Text} {out more : List Event}
        → Runs a t out
        → Runs (expr stdout_fn name argv i j) u more
        → Runs (expr stdout_fn name (cons a argv) i j) u (out ++ (Event.printed (c_str t) ∷ more))
    runs_substring :
        {name : Text} {a b : Expr} {i j : ℕ} {t u : Text} {out more : List Event}
        → Runs a t out
        → Runs b u more
        → Runs
            (expr substring_fn name (cons a (cons b nil)) i j)
            (truth (is_infix t u))
            (out ++ more)
    runs_not :
        {name : Text} {a : Expr} {i j : ℕ} {t : Text} {out : List Event}
        → Runs a t out
        → Runs (expr logical_not_fn name (cons a nil) i j) (truth (is_empty t)) out
    runs_and :
        {name : Text} {a b : Expr} {i j : ℕ} {t u : Text} {out more : List Event}
        → Runs a t out
        → is_empty t ≡ false
        → Runs b u more
        → Runs (expr logical_and_fn name (cons a (cons b nil)) i j) u (out ++ more)
    runs_and_left :
        {name : Text} {a b : Expr} {i j : ℕ} {t : Text} {out : List Event}
        → Runs a t out
        → is_empty t ≡ true
        → Runs (expr logical_and_fn name (cons a (cons b nil)) i j) [] out
    runs_or :
        {name : Text} {a b : Expr} {i j : ℕ} {t u : Text} {out more : List Event}
        → Runs a t out
        → is_empty t ≡ true
        → Runs b u more
        → Runs (expr logical_or_fn name (cons a (cons b nil)) i j) u (out ++ more)
    runs_or_left :
        {name : Text} {a b : Expr} {i j : ℕ} {t : Text} {out : List Event}
        → Runs a t out
        → is_empty t ≡ false
        → Runs (expr logical_or_fn name (cons a (cons b nil)) i j) (c_str t) out
    runs_if :
        {name : Text} {c a : Expr} {i j : ℕ} {t u : Text} {out more : List Event}
        → Runs c t out
        → is_empty t ≡ false
        → Runs a u more
        → Runs (expr if_else_fn name (cons c (cons a nil)) i j) u (out ++ more)
    runs_if_not :
        {name : Text} {c a : Expr} {i j : ℕ} {t : Text} {out : List Event}
        → Runs c t out
        → is_empty t ≡ true
        → Runs (expr if_else_fn name (cons c (cons a nil)) i j) [] out
    runs_then :
        {name : Text} {c a b : Expr} {i j : ℕ} {t u : Text} {out more : List Event}
        → Runs c t out
        → is_empty t ≡ false
        → Runs a u more
        → Runs (expr if_else_fn name (cons c (cons a (cons b nil))) i j) u (out ++ more)
    runs_else :
        {name : Text} {c a b : Expr} {i j : ℕ} {t u : Text} {out more : List Event}
        → Runs c t out
        → is_empty t ≡ true
        → Runs b u more
        → Runs (expr if_else_fn name (cons c (cons a (cons b nil))) i j) u (out ++ more)

  pub data AllRun : Args → List Text → List Event → Type 0 where
    none_run : AllRun nil [] []
    more_run :
        {e : Expr} {es : Args} {t : Text} {ts : List Text} {out more : List Event}
        → Runs e t out
        → AllRun es ts more
        → AllRun (cons e es) (t ∷ ts) (out ++ more)

mutual
  unfolding evaluate_value

  argument-Yields :
      {e : Expr} {t : Text} {out : List Event} → Runs e t out → Yields (argument e).run t out
  argument-Yields runs_literal = literal-Yields _ _
  argument-Yields (runs_concat h) = concat_fn-Yields _ _ _ _ (arguments-ReadAs h)
  argument-Yields (runs_sequence h k) =
      sequence_fn-Yields _ _ _ _ _ _ _ (argument-Yields h) (argument-Yields k)
  argument-Yields (runs_equality h k) =
      equality_fn-Yields _ _ _ _ _ _ _ (argument-Yields h) (argument-Yields k)
  argument-Yields (runs_inequality h k) =
      inequality_fn-Yields _ _ _ _ _ _ _ (argument-Yields h) (argument-Yields k)
  argument-Yields (runs_substring h k) =
      substring_fn-Yields _ _ _ _ _ _ _ (argument-Yields h) (argument-Yields k)
  argument-Yields runs_stdout = stdout_fn-nil _
  argument-Yields (runs_stdout_more h k) =
      stdout_fn-Yields _ _ _ _ _ _ _ (argument-Yields h) (argument-Yields k)
  argument-Yields (runs_not h) = logical_not_fn-Yields _ _ _ _ (argument-Yields h)
  argument-Yields (runs_and h e k) =
      logical_and_fn-Yields _ _ _ _ _ _ _ (argument-Yields h) e (argument-Yields k)
  argument-Yields (runs_and_left h e) = logical_and_fn-left _ _ _ _ _ (argument-Yields h) e
  argument-Yields (runs_or h e k) =
      logical_or_fn-Yields _ _ _ _ _ _ _ (argument-Yields h) e (argument-Yields k)
  argument-Yields (runs_or_left h e) = logical_or_fn-left _ _ _ _ _ (argument-Yields h) e
  argument-Yields (runs_if h e k) =
      if_else_fn-if _ _ _ _ _ _ _ (argument-Yields h) e (argument-Yields k)
  argument-Yields (runs_if_not h e) = if_else_fn-if_not _ _ _ _ _ (argument-Yields h) e
  argument-Yields (runs_then h e k) =
      if_else_fn-then _ _ _ _ _ _ _ _ (argument-Yields h) e (argument-Yields k)
  argument-Yields (runs_else h e k) =
      if_else_fn-else _ _ _ _ _ _ _ _ (argument-Yields h) e (argument-Yields k)

  arguments-ReadAs :
      {es : Args} {ts : List Text} {out : List Event}
      → AllRun es ts out
      → ReadAs (arguments es) ts out
  arguments-ReadAs none_run = read_args-nil
  arguments-ReadAs (more_run h hs) =
      read_args-more _ _ _ _ _ _ (argument-Yields h) (arguments-ReadAs hs)

evaluates : (e : Expr) (s : State) → evaluate_value e s ≡ (argument e).run s
unfolding evaluate_value
evaluates (expr fn name argv i j) s = refl

-- For every script of literals, operators, conditions and calls of `concat`, `is_substring` and `stdout`,
-- in any nesting, whose evaluated parts are such scripts: `EvaluateValue` ends with the text that the rules
-- give the script, as a string. It appends to the output what they give, which is that of the evaluated
-- parts from left to right, and changes nothing else of the state.
pub evaluate_value-Runs :
    (e : Expr) (t : Text) (out : List Event) (s : State)
    → Runs e t out
    → evaluate_value e s ≡ (value (text_value t), after s out)
evaluate_value-Runs e t out s h = evaluates e s ∙ argument-Yields h s
