-- ===== src/Blockimg/Functions.antt =====
-- updater/blockimg.cpp: the start of `PerformBlockImageUpdate`, and the functions `block_image_verify`,
-- `block_image_update`, `range_sha1` and `check_first_block`.
use recovery.Base.{
  Bool, true, false, not, ◌&&◌, ◌||◌, ◌++◌, List, [], ◌∷◌, take, Text, codes, text_eq, c_str,
  Option, none, some, if◌then◌else◌,
}
use recovery.ErrorCode.{args_parsing_failure}
use recovery.Edify.Defs.{Value, State, Arg, Event, printed, string_value, error_abort}
use recovery.Edify.Defs as Edify
use recovery.Edify.Builtins.{read_value_args}
use recovery.Blockimg.Machine.{
  Env, Machine, CommandParameters, Outcome, ok, fault, M, ◌>>=◌, ◌>>◌, pure, get, stop, modify,
  set_params, system_call,
}
use recovery.Blockimg.Commands.{
  perform_command_diff, perform_command_erase, perform_command_free, perform_command_move,
  perform_command_new, perform_command_stash, perform_command_zero,
}
use recovery.Blockimg.Update.{
  UpdaterInfo, Result, empty_string, abort_empty, string_type, blob_type, Commands,
  run_transfer_list,
}

-- The interpreter's calls on the state that the machine holds.
abbrev pub of_action :
    {A : Type 0} → Edify.Outcome A × State → Machine → Outcome (Option A) × Machine
of_action (Edify.null, s) m = (ok none, record m { state = s })
of_action (Edify.value a, s) m = (ok (some a), record m { state = s })
of_action (Edify.fault, s) m = (fault, record m { state = s })

abbrev pub run_action : {A : Type 0} → Edify.Action A → M (Option A)
run_action f m = of_action (f m.state) m

unfoldable pub argument_error : Text → Text → Text → M Result
argument_error argument name kind =
    abort_empty args_parsing_failure
      (argument ++ (codes " argument to " ++ (name ++ (codes " must be " ++ kind))))

-- `CommandParameters params = {}`, with what is known of it.
unfoldable pub new_params : Bool → CommandParameters
new_params canwrite = record {
  tokens = [];
  cpos = 0;
  cmdname = [];
  freestash = [];
  stashbase = [];
  canwrite = canwrite;
  createdstash = false;
  foundwrites = false;
  isunresumable = false;
  version = 0;
  written = 0;
  stashed = 0;
  patch_data = [];
}

-- The device is open, and the thread that unpacks the new data is started if there is something to write.
unfoldable pub start_update : Env → Commands → Text → Text → List Text → M Result
start_update env commands blockdev transfer_list new_data = do
  m ← get
  fails ← (if m.params.canwrite then system_call env else pure false)
  if fails
      then empty_string
      else (modify (λ s. record s { new_data = if s.params.canwrite then new_data else [] })
          >> run_transfer_list env commands (c_str blockdev) (env.split b'\n' transfer_list))

abbrev pub with_device : Env → Commands → Text → Text → List Text → Option Text → M Result
with_device env commands blockdev transfer_list new_data none =
    system_call env >>= λ fails. empty_string
with_device env commands blockdev transfer_list new_data (some bytes) = do
  fails ← system_call env
  modify (λ m. if fails then m else record m { device = bytes; offset = 0 })
  if fails then empty_string else start_update env commands blockdev transfer_list new_data

abbrev pub with_entries :
    Env → Commands → UpdaterInfo → Text → Text → Option Text → Option (List Text) → M Result
with_entries env commands ui blockdev transfer_list (some patch) (some new_data) =
    set_params (λ p. record p { patch_data = patch })
    >> with_device env commands blockdev transfer_list new_data (ui.devices (c_str blockdev))
with_entries env commands ui blockdev transfer_list (some patch) none = empty_string
with_entries env commands ui blockdev transfer_list none new_data = empty_string

unfoldable pub with_info :
    Env → Commands → Option UpdaterInfo → Text → Text → Text → Text → M Result
with_info env commands none blockdev transfer_list new_data_fn patch_data_fn = empty_string
with_info env commands (some ui) blockdev transfer_list new_data_fn patch_data_fn =
    if ui.has_pipe && ui.has_zip
    then with_entries env commands ui blockdev transfer_list (ui.patch_entry (c_str patch_data_fn))
        (ui.new_entry (c_str new_data_fn))
    else empty_string

-- The tests of the arguments' types.
unfoldable pub with_arguments :
    Env → Commands → Option UpdaterInfo → Text → Value → Value → Value → Value → M Result
with_arguments env commands ui name blockdev_filename transfer_list_value new_data_fn
      patch_data_fn =
    if not (string_type blockdev_filename.type)
    then argument_error (codes "blockdev_filename") name (codes "string")
    else if not (blob_type transfer_list_value.type)
    then argument_error (codes "transfer_list") name (codes "blob")
    else if not (string_type new_data_fn.type)
    then argument_error (codes "new_data_fn") name (codes "string")
    else if not (string_type patch_data_fn.type)
    then argument_error (codes "patch_data_fn") name (codes "string")
    else with_info env commands ui blockdev_filename.bytes transfer_list_value.bytes
        new_data_fn.bytes patch_data_fn.bytes

abbrev pub with_values : Env → Commands → Option UpdaterInfo → Text → Option (List Value) → M Result
with_values env commands ui name (some (v0 ∷ v1 ∷ v2 ∷ v3 ∷ [])) =
    with_arguments env commands ui name v0 v1 v2 v3
with_values env commands ui name none = pure none
with_values env commands ui name (some other) = stop fault

-- `PerformBlockImageUpdate`. `argv` is read up to four arguments; fewer are undefined.
unfoldable pub perform_block_image_update :
    Env → Commands → Bool → Option UpdaterInfo → Text → List Arg → M Result
perform_block_image_update env commands dryrun ui name argv = do
  modify (λ m. record m {
    params = new_params (not dryrun);
    buffer = [];
    is_retry = if m.state.is_retry then true else m.is_retry;
  })
  values ← run_action (read_value_args (take 4 argv))
  with_values env commands ui name values

-- The tables, with the commands by their names.
unfoldable pub verify_commands : Env → Commands
verify_commands env name =
    if text_eq name (codes "bsdiff") || text_eq name (codes "imgdiff")
    then some (some (perform_command_diff env))
    else if text_eq name (codes "free")
    then some (some (perform_command_free env))
    else if text_eq name (codes "move")
    then some (some (perform_command_move env))
    else if text_eq name (codes "stash")
    then some (some (perform_command_stash env))
    else if text_eq name (codes "erase")
    then some none
    else if text_eq name (codes "new")
    then some none
    else if text_eq name (codes "zero")
    then some none
    else none

unfoldable pub update_commands : Env → Commands
update_commands env name =
    if text_eq name (codes "bsdiff") || text_eq name (codes "imgdiff")
    then some (some (perform_command_diff env))
    else if text_eq name (codes "free")
    then some (some (perform_command_free env))
    else if text_eq name (codes "move")
    then some (some (perform_command_move env))
    else if text_eq name (codes "stash")
    then some (some (perform_command_stash env))
    else if text_eq name (codes "erase")
    then some (some (perform_command_erase env))
    else if text_eq name (codes "new")
    then some (some (perform_command_new env))
    else if text_eq name (codes "zero")
    then some (some (perform_command_zero env))
    else none

-- `BlockImageVerifyFn` and `BlockImageUpdateFn`.
unfoldable pub block_image_verify_fn : Env → Option UpdaterInfo → Text → List Arg → M Result
block_image_verify_fn env = perform_block_image_update env (verify_commands env) true

unfoldable pub block_image_update_fn : Env → Option UpdaterInfo → Text → List Arg → M Result
block_image_update_fn env = perform_block_image_update env (update_commands env) false
