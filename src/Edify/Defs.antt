-- ===== src/Edify/Defs.antt =====
-- edify/expr.h and the first part of edify/expr.cpp: values, the interpreter's state, and the calls
-- by which a function evaluates its arguments.
use recovery.Base.{ℕ, Bool, false, ◌++◌, List, [], ◌∷◌, Text, codes, c_str}
use recovery.Base.Int.{ℤ}
use recovery.ErrorCode.{CauseCode, ErrorCode, no_cause, args_parsing_failure, no_error}

-- `enum ValueType`.
pub data ValueType : Type 0 where
  invalid string blob : ValueType

-- `struct Value`; the field `data` is `bytes` here.
pub record Value : Type 0 where
  pub type : ValueType
  pub bytes : Text

-- What a script does to the world outside of the interpreter: `sleep(v)` and `fputs(v, stdout)`.
pub data Event : Type 0 where
  slept : ℤ → Event
  printed : Text → Event

-- `struct State`, with the events so far. The interpreter never reads `cookie`.
pub record State : Type 0 where
  pub script : Text
  pub errmsg : Text
  pub error_code : ErrorCode
  pub cause_code : CauseCode
  pub is_retry : Bool
  pub events : List Event

-- How a call ends: with `nullptr`, with a value, or with undefined behaviour (a read of `argv` past
-- its end, or an exception that nothing catches).
pub data Outcome (A : Type 0) : Type 0 where
  null : Outcome A
  value : A → Outcome A
  fault : Outcome A

abbrev pub Action : Type 0 → Type 0
Action A = State → Outcome A × State

-- What a chain of calls does after its first call has ended.
abbrev pub and_then : {A B : Type 0} → (A → Action B) → Outcome A × State → Outcome B × State
and_then f (null, s) = (null, s)
and_then f (value a, s) = f a s
and_then f (fault, s) = (fault, s)

infixl 5 ◌>>=◌
abbrev pub ◌>>=◌ : {A B : Type 0} → Action A → (A → Action B) → Action B
◌>>=◌ m f s = and_then f (m s)

abbrev pub pure : {A : Type 0} → A → Action A
pure a s = (value a, s)

-- An argument of a function, as the function sees it: what `EvaluateValue` does to it, and its place
-- in the script.
pub record Arg : Type 0 where
  pub run : Action Value
  pub start : ℕ
  pub stop : ℕ

-- `using Function = Value* (*)(const char* name, State*, int argc, Expr* argv[])`.
abbrev pub Function : Type 0
Function = Text → List Arg → Action Value

-- `struct Expr`: any function may stand in `fn`.
mutual
  pub data Expr : Type 0 where
    expr : Function → Text → Args → ℕ → ℕ → Expr

  pub data Args : Type 0 where
    nil : Args
    cons : Expr → Args → Args

-- `EvaluateValue`, and an `argv` as its function sees it.
unfoldable mutual
  pub evaluate_value : Expr → Action Value
  evaluate_value (expr fn name argv start stop) s = fn name (arguments argv) s

  pub arguments : Args → List Arg
  arguments nil = []
  arguments (cons e es) = argument e ∷ arguments es

  pub argument : Expr → Arg
  argument (expr fn name argv start stop) = record {
    run = fn name (arguments argv);
    start = start;
    stop = stop;
  }

-- `StringValue`: both overloads copy up to the first NUL.
unfoldable pub string_value : Text → Value
string_value t = record { type = string; bytes = c_str t }

-- `%d` of a `ValueType`.
abbrev pub type_number : ValueType → Text
type_number invalid = codes "-1"
type_number string = codes "1"
type_number blob = codes "2"

-- `ErrorAbort(state, cause_code, format, ...)`, with the formatted text.
unfoldable pub error_abort : {A : Type 0} → CauseCode → Text → Action A
error_abort cause message s = (null, record s { errmsg = s.errmsg ++ message; cause_code = cause })

abbrev pub string_or_abort : ValueType → Text → Action Text
unfolding error_abort
string_or_abort string bytes s = (value bytes, s)
string_or_abort other bytes s =
    error_abort args_parsing_failure
      (codes "expecting string, got value type " ++ type_number other) s

unfoldable pub expect_string : Value → Action Text
unfolding error_abort
expect_string v = string_or_abort v.type v.bytes

-- `Evaluate`: the value of an argument that has to be a string.
unfoldable pub evaluate : Arg → Action Text
unfolding expect_string
evaluate a = a.run >>= expect_string

-- `state->errmsg = message; return nullptr;`
unfoldable pub fail_with : {A : Type 0} → Text → Action A
fail_with message s = (null, record s { errmsg = message })

-- `State::State`.
unfoldable pub initial_state : Text → State
initial_state script = record {
  script = script;
  errmsg = [];
  error_code = no_error;
  cause_code = no_cause;
  is_retry = false;
  events = [];
}
