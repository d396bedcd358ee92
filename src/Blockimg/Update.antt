-- ===== src/Blockimg/Update.antt =====
-- updater/blockimg.cpp: `PerformBlockImageUpdate`, and the functions of the script that call it. What is
-- written to the command pipe is left out.
use recovery.Base.{
  ℕ, ◌==◌, leb, Bool, true, false, not, ◌&&◌, ◌||◌, ◌++◌, List, [], ◌∷◌, length, Text, codes,
  is_empty, Option, none, some, if◌then◌else◌,
}
use recovery.ErrorCode.{CauseCode, no_cause, args_parsing_failure, fsync_failure}
use recovery.Edify.Defs.{Value, ValueType, invalid, string, blob, string_value, error_abort}
use recovery.RotateLogs.Defs.{to_string}
use recovery.Blockimg.Ranges.{int_max}
use recovery.Blockimg.Machine.{
  Env, ok, failed, hung, M, ◌>>=◌, ◌>>◌, pure, done, get, stop, modify, set_params, attempt,
  fail_as, system_call, require,
}
use recovery.Blockimg.Stash.{delete_stash}
use recovery.Blockimg.Saving.{create_stash, next_token, succeeds}

-- `UpdaterInfo`, as far as it is used: whether the pipe and the package are open, what stands in the
-- package from an entry on, how the unpacker hands out an entry; and the devices by their names.
pub record UpdaterInfo : Type 0 where
  pub has_pipe : Bool
  pub has_zip : Bool
  pub patch_entry : Text → Option Text
  pub new_entry : Text → Option (List Text)
  pub devices : Text → Option Text

-- What a function of the script returns; none is `nullptr`.
abbrev pub Result : Type 0
Result = Option Value

abbrev pub empty_string : M Result
empty_string = pure (some (string_value []))

-- `ErrorAbort(...); return StringValue("");`
unfoldable pub abort_empty : CauseCode → Text → M Result
abort_empty cause message m = (
  ok (some (string_value [])),
  record m { state = (error_abort {A = Unit {0}} cause message m.state).1 },
)

abbrev pub string_type : ValueType → Bool
string_type string = true
string_type blob = false
string_type invalid = false

abbrev pub blob_type : ValueType → Bool
blob_type string = false
blob_type blob = true
blob_type invalid = false

-- A table of commands: none for a name that it lacks, some none for a `nullptr` in it.
abbrev pub Commands : Type 0
Commands = Text → Option (Option (M (Unit {0})))

unfoldable pub run_command : Option (Option (M (Unit {0}))) → M (Unit {0})
run_command none = stop failed
run_command (some none) = done
run_command (some (some f)) = f

-- A line that is not empty.
unfoldable pub run_line : Env → Commands → Text → M (Unit {0})
run_line env commands line = do
  set_params (λ p. record p { tokens = env.split b' ' line; cpos = 0 })
  name ← next_token
  set_params (λ p. record p { cmdname = name })
  run_command (commands name)
  m ← get
  if m.params.canwrite then require (system_call env) (fail_as fsync_failure) else done

-- The loop over the lines of commands.
unfoldable pub run_lines : Env → Commands → List Text → M (Unit {0})
run_lines env commands [] = done
run_lines env commands ([] ∷ lines) = run_lines env commands lines
run_lines env commands ((c ∷ line) ∷ lines) = do
  run_line env commands (c ∷ line)
  run_lines env commands lines

-- Whether the other thread has unpacked all.
unfoldable pub all_received : List Text → Bool
all_received [] = true
all_received (part ∷ chunks) = is_empty part && all_received chunks

-- Behind the last command: the other thread is joined, and the stash is deleted.
unfoldable pub complete : Env → M (Unit {0})
complete env = do
  m ← get
  if m.params.canwrite
      then if all_received m.new_data then delete_stash env m.params.stashbase else stop hung
      else done

abbrev pub is_no_cause : CauseCode → Bool
is_no_cause no_cause = true
is_no_cause _ = false

-- From the label `pbiudone` on.
unfoldable pub finish_update : Env → Bool → M Result
finish_update env success = do
  fails ← system_call env
  modify (λ m. if fails then record m { failure_type = fsync_failure } else m)
  m ← get
  if m.params.isunresumable || not m.params.canwrite && m.params.createdstash
      then delete_stash env m.params.stashbase
      else done
  modify (λ s.
      if not (is_no_cause s.failure_type) && is_no_cause s.state.cause_code
      then record s { state = record s.state { cause_code = s.failure_type } }
      else s)
  pure (some (string_value (if success then codes "t" else [])))

-- The commands, and what follows them.
unfoldable pub run_commands : Env → Commands → List Text → M Result
run_commands env commands lines = do
  finished ← attempt (run_lines env commands lines >> complete env)
  finish_update env (succeeds finished)

abbrev pub stashed_result : Env → Commands → List Text → Option Bool → M Result
stashed_result env commands lines none = empty_string
stashed_result env commands lines (some created) =
    set_params (λ p. record p { createdstash = created }) >> run_commands env commands lines

abbrev pub with_stash_max : Env → Commands → Text → Text → List Text → Option ℕ → M Result
with_stash_max env commands blockdev text lines none =
    abort_empty args_parsing_failure
      (codes "unexpected maximum stash blocks [" ++ (text ++ codes "]\n"))
with_stash_max env commands blockdev text lines (some stash_max_blocks) =
    attempt (create_stash env stash_max_blocks blockdev) >>= stashed_result env commands lines

abbrev pub too_few_lines : List Text → M Result
too_few_lines lines =
    abort_empty args_parsing_failure
      (codes "too few lines in the transfer list [" ++ (to_string (length lines) ++ codes "]\n"))

-- The lines behind the second one.
abbrev pub stash_lines : Env → Commands → Text → List Text → List Text → M Result
stash_lines env commands blockdev lines (entries ∷ max ∷ rest) =
    with_stash_max env commands blockdev max rest (env.parse_int max 0 int_max)
stash_lines env commands blockdev lines other = too_few_lines lines

abbrev pub with_total : Env → Commands → Text → Text → List Text → List Text → Option ℕ → M Result
with_total env commands blockdev text lines rest none =
    abort_empty args_parsing_failure (codes "unexpected block count [" ++ (text ++ codes "]\n"))
with_total env commands blockdev text lines rest (some total_blocks) = do
  m ← get
  if total_blocks == 0
      then pure (some (string_value (codes "t")))
      else if leb 2 m.params.version
      then stash_lines env commands blockdev lines rest
      else run_commands env commands rest

abbrev pub with_version : Env → Commands → Text → Text → List Text → List Text → Option ℕ → M Result
with_version env commands blockdev total lines rest none = empty_string
with_version env commands blockdev total lines rest (some version) =
    set_params (λ p. record p { version = version })
    >> with_total env commands blockdev total lines rest (env.parse_int total 0 int_max)

-- The transfer list.
unfoldable pub run_transfer_list : Env → Commands → Text → List Text → M Result
run_transfer_list env commands blockdev (version ∷ total ∷ rest) =
    with_version env commands blockdev total (version ∷ total ∷ rest) rest
      (env.parse_int version 1 4)
run_transfer_list env commands blockdev lines = too_few_lines lines
