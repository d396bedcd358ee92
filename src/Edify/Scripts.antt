-- ===== src/Edify/Scripts.antt =====
-- edify/expr.cpp: what the functions of the table leave alone.
use mathlib.Core.Path.{subst}
use recovery.Base.{
  ◌≡◌, Bool, true, false, List, [], ◌∷◌, Option, some, Text, text_eq, if◌then◌else◌,
}
use recovery.Base.Int.{ℤ}
use recovery.Edify.Defs.{State, Arg, Function}
use recovery.Edify.Table.{FnTable, register_function, find_function, register_builtins}
use recovery.Edify.Frame.{Frame, All, ArgsPreserve, PreservesWithArgs}
use recovery.Edify.Preserved.{
  concat_fn-Preserves, if_else_fn-Preserves, abort_fn-Preserves, assert_fn-Preserves,
  stdout_fn-Preserves, substring_fn-Preserves, sleep_fn-Preserves, less_than_int_fn-Preserves,
  greater_than_int_fn-Preserves,
}

abbrev TablePreserves : FnTable → Type 0
TablePreserves table = All (λ (entry : Text × Function). PreservesWithArgs entry.1) table

if-TablePreserves :
    (b : Bool) (t u : FnTable)
    → TablePreserves t
    → TablePreserves u
    → TablePreserves (if b then t else u)
if-TablePreserves true t u h k = h
if-TablePreserves false t u h k = k

register_function-Preserves :
    (name : Text) (fn : Function) (table : FnTable)
    → PreservesWithArgs fn
    → TablePreserves table
    → TablePreserves (register_function name fn table)
unfolding register_function
register_function-Preserves name fn [] p h = (p, tt)
register_function-Preserves name fn ((other, g) ∷ table) p h =
    if-TablePreserves (text_eq other name) _ _ (p, h.1)
      (h.0, register_function-Preserves name fn table p h.1)

find_function-Preserves :
    (name : Text) (fn : Function) (table : FnTable)
    → TablePreserves table
    → find_function name table ≡ some fn
    → PreservesWithArgs fn
unfolding find_function
find_function-Preserves name fn [] h e = cc
find_function-Preserves name fn ((other, g) ∷ table) h e =
    go (text_eq other name) e (find_function-Preserves name fn table h.1)
  where
    go :
        (b : Bool)
        → (if b then some g else find_function name table) ≡ some fn
        → (find_function name table ≡ some fn → PreservesWithArgs fn)
        → PreservesWithArgs fn
    go true d ih = subst (λ (f : Function). PreservesWithArgs f) (let p : g ≡ fn = cc in p) h.0
    go false d ih = ih d

builtin-Preserves :
    (parse_int : ℤ → ℤ → Text → Option ℤ) (name : Text) (fn : Function)
    → find_function name (register_builtins parse_int []) ≡ some fn
    → PreservesWithArgs fn
unfolding register_builtins
builtin-Preserves parse_int name fn found =
    find_function-Preserves name fn _
      (register_function-Preserves _ _ _ (greater_than_int_fn-Preserves parse_int) (
        register_function-Preserves _ _ _ (less_than_int_fn-Preserves parse_int) (
          register_function-Preserves _ _ _ (sleep_fn-Preserves parse_int) (
            register_function-Preserves _ _ _ stdout_fn-Preserves (
              register_function-Preserves _ _ _ substring_fn-Preserves (
                register_function-Preserves _ _ _ concat_fn-Preserves (
                  register_function-Preserves _ _ _ assert_fn-Preserves (
                    register_function-Preserves _ _ _ abort_fn-Preserves
                      (register_function-Preserves _ _ [] if_else_fn-Preserves tt)))))))))
      found

-- A call of any function that `RegisterBuiltins` puts into the table, on arguments that leave alone the
-- script, the error code and the retry mark and only append output, does so itself, however it ends.
pub register_builtins-Preserves :
    (parse_int : ℤ → ℤ → Text → Option ℤ) (name called : Text) (fn : Function) (argv : List Arg)
    (s : State)
    → find_function name (register_builtins parse_int []) ≡ some fn
    → ArgsPreserve argv
    → Frame s (fn called argv s).1
register_builtins-Preserves parse_int name called fn argv s found h =
    (builtin-Preserves parse_int name fn found called argv h).frame s
