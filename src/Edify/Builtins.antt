-- ===== src/Edify/Builtins.antt =====
-- edify/expr.cpp: the functions of the operators and the global functions.
use recovery.Base.{
  ℕ, ◌-◌, ◌^◌, ◌==◌, ltb, Bool, not, ◌&&◌, ◌++◌, List, [], ◌∷◌, Option, none, some, Text, codes,
  c_str, is_empty, is_infix, text_eq, length, take, drop, if◌then◌else◌,
}
use recovery.Base.Int.{ℤ, pos, negsuc, ltb_ℤ}
use recovery.Edify.Defs.{
  Value, slept, printed, State, Outcome, null, value, fault, Action, ◌>>=◌, pure, Arg, Function,
  string_value, evaluate, fail_with,
}

-- `argv[i]`, where nothing has tested `argc`.
unfoldable pub arg_at : List Arg → ℕ → Arg
arg_at [] _ = record { run = λ s. (fault, s); start = 0; stop = 0 }
arg_at (a ∷ _) ℕ.zero = a
arg_at (_ ∷ argv) (ℕ.suc i) = arg_at argv i

-- `"t"` or `""`.
abbrev pub boolean_value : Bool → Value
boolean_value b = string_value (if b then codes "t" else [])

-- `BooleanString`.
abbrev pub boolean_string : Text → Bool
boolean_string s = not (is_empty s)

-- The loop of `ConcatFn`.
unfoldable pub concat_loop : Text → List Arg → Action Value
concat_loop result [] = pure (string_value result)
concat_loop result (a ∷ argv) = do str ← evaluate a; concat_loop (result ++ str) argv

unfoldable pub concat_fn : Function
unfolding concat_loop
concat_fn name argv = if length argv == 0 then pure (string_value []) else concat_loop [] argv

unfoldable pub if_else_fn : Function
unfolding fail_with
if_else_fn name argv =
    let body : Action Value = do
      cond ← evaluate (arg_at argv 0)
      if not (is_empty cond)
          then (arg_at argv 1).run
          else (if length argv == 3 then (arg_at argv 2).run else pure (string_value []))
    in if not (length argv == 2) && not (length argv == 3)
      then fail_with (codes "ifelse expects 2 or 3 arguments")
      else body

-- What `AbortFn` does with the outcome of `Evaluate(state, argv[0], &msg)`.
abbrev pub abort_with : Outcome Text × State → Outcome Value × State
abort_with (value msg, s) = (null, record s { errmsg = msg })
abort_with (null, s) = (null, record s { errmsg = codes "called abort()" })
abort_with (fault, s) = (fault, s)

unfoldable pub abort_fn : Function
abort_fn name argv s =
    if ltb 0 (length argv)
    then abort_with (evaluate (arg_at argv 0) s)
    else (null, record s { errmsg = codes "called abort()" })

-- `script.substr(start, len)` for `int len = end - start`: a negative length reads to the end, and
-- a start behind the script throws.
unfoldable pub substr : Text → ℕ → ℕ → Option Text
substr script start stop =
    if ltb (length script) start
    then none
    else some
        (if ltb stop start then drop start script else take (stop - start) (drop start script))

abbrev pub assert_message : Option Text → Action Value
assert_message none s = (fault, s)
assert_message (some t) s = fail_with (codes "assert failed: " ++ t) s

abbrev pub assert_failed : Arg → Action Value
assert_failed a s = assert_message (substr s.script a.start a.stop) s

unfoldable pub assert_fn : Function
unfolding substr fail_with
assert_fn name [] = pure (string_value [])
assert_fn name (a ∷ argv) = do
  result ← evaluate a
  let rest = assert_fn name argv
  if is_empty result then assert_failed a else rest

unfoldable pub stdout_fn : Function
stdout_fn name [] = pure (string_value [])
stdout_fn name (a ∷ argv) = do
  v ← evaluate a
  λ s. stdout_fn name argv (record s { events = s.events ++ printed (c_str v) ∷ [] })

unfoldable pub logical_and_fn : Function
logical_and_fn name argv = do
  left ← evaluate (arg_at argv 0)
  if boolean_string left then (arg_at argv 1).run else pure (string_value [])

unfoldable pub logical_or_fn : Function
logical_or_fn name argv = do
  left ← evaluate (arg_at argv 0)
  if not (boolean_string left) then (arg_at argv 1).run else pure (string_value left)

unfoldable pub logical_not_fn : Function
logical_not_fn name argv = do
  val ← evaluate (arg_at argv 0)
  pure (boolean_value (not (boolean_string val)))

unfoldable pub substring_fn : Function
substring_fn name argv = do
  needle ← evaluate (arg_at argv 0)
  haystack ← evaluate (arg_at argv 1)
  pure (boolean_value (is_infix needle haystack))

unfoldable pub equality_fn : Function
equality_fn name argv = do
  left ← evaluate (arg_at argv 0)
  right ← evaluate (arg_at argv 1)
  pure (boolean_value (text_eq left right))

unfoldable pub inequality_fn : Function
inequality_fn name argv = do
  left ← evaluate (arg_at argv 0)
  right ← evaluate (arg_at argv 1)
  pure (boolean_value (not (text_eq left right)))

unfoldable pub sequence_fn : Function
sequence_fn name argv = do left ← (arg_at argv 0).run; (arg_at argv 1).run

-- `Literal`.
unfoldable pub literal : Function
literal name argv = pure (string_value name)

-- `ReadArgs`, whose result vector is empty on failure.
unfoldable pub read_args : List Arg → Action (List Text)
read_args [] = pure []
read_args (a ∷ argv) = do var ← evaluate a; rest ← read_args argv; pure (var ∷ rest)

-- `ReadValueArgs`.
unfoldable pub read_value_args : List Arg → Action (List Value)
read_value_args [] = pure []
read_value_args (a ∷ argv) = do v ← a.run; rest ← read_value_args argv; pure (v ∷ rest)

abbrev pub int_max : ℤ
int_max = pos (2 ^ 31 - 1)

abbrev pub int64_min : ℤ
int64_min = negsuc (2 ^ 63 - 1)

abbrev pub int64_max : ℤ
int64_max = pos (2 ^ 63 - 1)

abbrev pub with_parsed : {A : Type 0} → Text → (ℤ → Action A) → Option ℤ → Action A
with_parsed t k none = fail_with (codes "failed to parse int in " ++ t)
with_parsed t k (some v) = k v

-- The functions that parse a number.
module _ (parse_int : ℤ → ℤ → Text → Option ℤ) where
  abbrev pub sleep_for : Text → Option ℤ → Action Value
  sleep_for val none s = (null, s)
  sleep_for val (some v) s =
      (value (string_value val), record s { events = s.events ++ slept v ∷ [] })

  unfoldable pub sleep_fn : Function
  sleep_fn name argv = do
    val ← evaluate (arg_at argv 0)
    sleep_for val (parse_int (pos 0) int_max (c_str val))

  abbrev pub parse_or_fail : {A : Type 0} → Text → (ℤ → Action A) → Action A
  parse_or_fail t k = with_parsed t k (parse_int int64_min int64_max (c_str t))

  abbrev pub compare_texts : List Text → Action Value
  compare_texts (l ∷ r ∷ []) =
      parse_or_fail l (λ l_int. parse_or_fail r (λ r_int. pure (boolean_value (ltb_ℤ l_int r_int))))
  compare_texts _ = λ s. (fault, s)

  unfoldable pub less_than_int_fn : Function
  unfolding read_args fail_with
  less_than_int_fn name argv =
      let body : Action Value = read_args argv >>= compare_texts in
      if not (length argv == 2) then fail_with (codes "less_than_int expects 2 arguments") else body

  -- The two arguments change places, so the second is evaluated first.
  unfoldable pub greater_than_int_fn : Function
  unfolding less_than_int_fn
  greater_than_int_fn name argv =
      let body = less_than_int_fn name (arg_at argv 1 ∷ arg_at argv 0 ∷ []) in
      if not (length argv == 2)
      then fail_with (codes "greater_than_int expects 2 arguments")
      else body
