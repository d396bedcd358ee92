-- ===== src/Edify/Table.antt =====
-- edify/expr.cpp: the table of the functions that a script may call.
use recovery.Base.{
  List, [], ◌∷◌, Option, none, some, Text, codes, text_eq, if◌then◌else◌, ◌≡◌, refl, arith,
  text_eq_iff,
}
use recovery.Base.Int.{ℤ}
use recovery.Edify.Defs.{Function}
use recovery.Edify.Builtins.{
  if_else_fn, abort_fn, assert_fn, concat_fn, substring_fn, stdout_fn, sleep_fn, less_than_int_fn,
  greater_than_int_fn,
}

-- `fn_table`, an `unordered_map` from names to functions.
abbrev pub FnTable : Type 0
FnTable = List (Text × Function)

-- `RegisterFunction`: `fn_table[name] = fn`.
unfoldable pub register_function : Text → Function → FnTable → FnTable
register_function name fn [] = (name, fn) ∷ []
register_function name fn ((other, g) ∷ table) =
    if text_eq other name then (name, fn) ∷ table else (other, g) ∷ register_function name fn table

-- `FindFunction`.
unfoldable pub find_function : Text → FnTable → Option Function
find_function name [] = none
find_function name ((other, g) ∷ table) =
    if text_eq other name then some g else find_function name table

-- A name is found exactly if it was registered, and the last registration counts.
pub find_function-register_function :
    (name other : Text) (fn : Function) (table : FnTable)
    → find_function other (register_function name fn table)
      ≡ (if text_eq name other then some fn else find_function other table)
unfolding register_function find_function
find_function-register_function name other fn [] = refl
find_function-register_function name other fn ((key, g) ∷ table) = ground (
  arith,
  text_eq_iff key name,
  text_eq_iff key other,
  text_eq_iff name other,
  find_function-register_function name other fn table,
)

module _ (parse_int : ℤ → ℤ → Text → Option ℤ) where
  -- `RegisterBuiltins`.
  unfoldable pub register_builtins : FnTable → FnTable
  register_builtins table =
      register_function (codes "greater_than_int") (greater_than_int_fn parse_int) (
        register_function (codes "less_than_int") (less_than_int_fn parse_int) (
          register_function (codes "sleep") (sleep_fn parse_int) (
            register_function (codes "stdout") stdout_fn (
              register_function (codes "is_substring") substring_fn (
                register_function (codes "concat") concat_fn (
                  register_function (codes "assert") assert_fn (
                    register_function (codes "abort") abort_fn
                      (register_function (codes "ifelse") if_else_fn table))))))))
