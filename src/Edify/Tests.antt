-- ===== src/Edify/Tests.antt =====
-- edify/expr.cpp: runs of short scripts.
use recovery.Base.{
  ℕ, ◌≡◌, ◌≤◌, ◌↔◌, refl, ◌++◌, List, [], ◌∷◌, Option, none, some, length, Text, codes, text_eq,
  drop, take, arith, if◌then◌else◌,
}
use recovery.Base.Int.{ℤ}
use recovery.Edify.Defs.{
  Event, State, null, value, fault, ◌>>=◌, pure, Arg, Expr, expr, nil, cons, evaluate_value,
  arguments, argument, string_value, evaluate, expect_string, initial_state,
}
use recovery.Edify.Builtins.{
  literal, concat_fn, concat_loop, read_args, assert_fn, logical_and_fn, logical_or_fn,
  logical_not_fn, equality_fn, sequence_fn, if_else_fn, abort_fn, stdout_fn, arg_at, sleep_fn,
}
use recovery.Edify.Table.{
  register_function, find_function, register_builtins, find_function-register_function,
}
use recovery.Edify.Args.{join, concat_fn-eq-read_args, logical_not-logical_and}
use recovery.Edify.Assert.{Holds, none_left, holds, assert_fn_iff, assert_fn-append}
use recovery.Edify.Frame.{Frame}
use recovery.Edify.Preserved.{literal-Preserves}
use recovery.Edify.Scripts.{register_builtins-Preserves}
use recovery.Edify.Yields.{after, text_value}
use recovery.Edify.Runs.{
  Runs, runs_literal, runs_equality, runs_sequence, runs_stdout, runs_stdout_more, runs_then,
  evaluate_value-Runs,
}

-- stdout(concat("a", "b"))
abbrev script : Expr
script = expr stdout_fn (codes "stdout") (cons concatenation nil) 0 24
  where
    letter : Text → ℕ → ℕ → Expr
    letter t start stop = expr literal t nil start stop

    concatenation : Expr
    concatenation =
        expr concat_fn (codes "concat")
          (cons (letter (codes "a") 14 17) (cons (letter (codes "b") 19 22) nil)) 7 23

abbrev begin : State
begin = initial_state (codes "stdout(concat(\"a\", \"b\"))")

script-value :
    evaluate_value script begin
    ≡ (value (string_value []), record begin { events = Event.printed (codes "ab") ∷ [] })
unfolding evaluate_value arguments argument stdout_fn concat_fn concat_loop literal string_value
    initial_state evaluate expect_string
script-value = refl

-- if "a" == "a" then stdout("x", "y") ; "z" else abort() endif
abbrev branching : Expr
branching = expr if_else_fn (codes "if") (cons same (cons printing (cons aborting nil))) 0 60
  where
    letter : Text → Expr
    letter t = expr literal t nil 0 0

    same : Expr
    same =
        expr equality_fn (codes "==") (cons (letter (codes "a")) (cons (letter (codes "a")) nil)) 3
          13

    printing : Expr
    printing =
        expr sequence_fn (codes ";")
          (cons
            (expr stdout_fn (codes "stdout")
              (cons (letter (codes "x")) (cons (letter (codes "y")) nil)) 19 35)
            (cons (letter (codes "z")) nil))
          19 41

    aborting : Expr
    aborting = expr abort_fn (codes "abort") nil 47 54

abbrev two_letters : List Event
two_letters = Event.printed (codes "x") ∷ Event.printed (codes "y") ∷ []

branching-Runs : Runs branching (codes "z") two_letters
branching-Runs = runs_then (runs_equality runs_literal runs_literal) refl (
    runs_sequence (runs_stdout_more runs_literal (runs_stdout_more runs_literal runs_stdout))
      runs_literal)

evaluate_value-Runs_example :
    evaluate_value branching begin ≡ (value (text_value (codes "z")), after begin two_letters)
evaluate_value-Runs_example =
    evaluate_value-Runs branching (codes "z") two_letters begin branching-Runs

-- An argument with the text t, which is not empty in the script.
abbrev quoted : Text → Arg
quoted t = record { run = literal t []; start = 2; stop = 5 }

concat_fn-eq-read_args_example :
    concat_fn (codes "concat") (quoted (codes "a") ∷ quoted (codes "b") ∷ []) begin
    ≡ (read_args (quoted (codes "a") ∷ quoted (codes "b") ∷ []) >>= λ ts.
          pure (string_value (join ts)))
        begin
concat_fn-eq-read_args_example =
    concat_fn-eq-read_args (codes "concat") (quoted (codes "a") ∷ quoted (codes "b") ∷ []) begin

logical_not-logical_and_example :
    logical_not_fn []
      (record { run = logical_and_fn [] (quoted (codes "a") ∷ quoted [] ∷ []); start = 0; stop = 9 }
        ∷ [])
      begin
    ≡ logical_or_fn []
        (record { run = logical_not_fn [] (quoted (codes "a") ∷ []); start = 0; stop = 9 }
          ∷ record { run = logical_not_fn [] (quoted [] ∷ []); start = 0; stop = 9 }
          ∷ [])
        begin
logical_not-logical_and_example =
    logical_not-logical_and (quoted (codes "a")) (quoted []) [] [] [] 0 9 begin

assert_fn_iff_example :
    (assert_fn [] (quoted (codes "a") ∷ []) begin ≡ (value (string_value []), begin))
    ↔ (Holds (quoted (codes "a") ∷ []) begin begin × (string_value [] ≡ string_value []))
assert_fn_iff_example = assert_fn_iff [] (quoted (codes "a") ∷ []) begin begin (string_value [])

a-Holds : Holds (quoted (codes "a") ∷ []) begin begin
unfolding literal string_value evaluate expect_string
a-Holds = holds 97 [] refl none_left

empty-evaluates : evaluate (quoted []) begin ≡ (value [], begin)
unfolding literal string_value evaluate expect_string
empty-evaluates = refl

room : 5 ≤ length begin.script
unfolding initial_state
room = omega arith

assert_fn-append_example :
    assert_fn [] (quoted (codes "a") ∷ quoted [] ∷ quoted (codes "c") ∷ []) begin
    ≡ (null, record begin { errmsg = codes "assert failed: " ++ take 3 (drop 2 begin.script) })
assert_fn-append_example =
    assert_fn-append [] (quoted (codes "a") ∷ []) (quoted (codes "c") ∷ []) (quoted []) begin begin
      begin a-Holds empty-evaluates (omega arith) room

find_function-register_function_example :
    find_function
      (codes "concat")
      (register_function (codes "concat") literal ((codes "concat", concat_fn) ∷ []))
    ≡ (if text_eq (codes "concat") (codes "concat")
        then some literal
        else find_function (codes "concat") ((codes "concat", concat_fn) ∷ []))
find_function-register_function_example =
    find_function-register_function (codes "concat") (codes "concat") literal
      ((codes "concat", concat_fn) ∷ [])

abbrev parse_nothing : ℤ → ℤ → Text → Option ℤ
parse_nothing low high t = none

concat-registered :
    find_function (codes "concat") (register_builtins parse_nothing []) ≡ some concat_fn
unfolding find_function register_builtins register_function
concat-registered = refl

register_builtins-Preserves_example :
    Frame begin (concat_fn (codes "concat") (quoted (codes "a") ∷ []) begin).1
register_builtins-Preserves_example =
    register_builtins-Preserves parse_nothing (codes "concat") (codes "concat") concat_fn
      (quoted (codes "a") ∷ []) begin concat-registered (literal-Preserves (codes "a") [] tt, tt)

-- `sleep()` reads an argument that is not there.
sleep-faults : sleep_fn parse_nothing (codes "sleep") [] begin ≡ (fault, begin)
unfolding sleep_fn arg_at evaluate
sleep-faults = refl
