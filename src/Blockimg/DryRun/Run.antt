-- ===== src/Blockimg/DryRun/Run.antt =====
-- updater/blockimg.cpp: `block_image_verify` leaves the device as it found it.
use recovery.Base.{
  ◌≡◌, refl, ◌∙◌, ◌⊎◌, inl, inr, Bool, true, false, not, List, [], ◌∷◌, Text, c_str, take, Option,
  none, some, if◌then◌else◌,
}
use recovery.Edify.Defs.{Value, State, Arg}
use recovery.Edify.Defs as Edify
use recovery.Edify.Builtins.{read_value_args}
use recovery.Blockimg.Machine.{Env, Machine, M, ◌>>=◌, ◌>>◌, modify}
use recovery.Blockimg.Update.{UpdaterInfo, string_type, blob_type}
use recovery.Blockimg.Functions.{
  of_action, run_action, argument_error, new_params, start_update, with_device, with_entries,
  with_info, with_arguments, with_values, perform_block_image_update, verify_commands,
  block_image_verify_fn,
}
use recovery.Blockimg.Keeps.{
  Keeps, bind-Keeps, then-Keeps, get-Keeps, pure-Keeps, stop-Keeps, if-Keeps, modify-Keeps,
  set_params-Keeps,
}
use recovery.Blockimg.DryRun.{Dry, Same-Quiet}
use recovery.Blockimg.Quiet.{system_call-Quiet}
use recovery.Blockimg.DryRun.Commands.{abort_empty-Dry, run_transfer_list-Dry}

-- These are the bytes of a device that the updater knows.
abbrev pub IsDevice : Option UpdaterInfo → Text → Type 0
IsDevice none bytes = ⊥
IsDevice (some ui) bytes = (name : Text) × (ui.devices name ≡ some bytes)

-- The bytes are those of before, or those of a device that was opened.
abbrev pub Unchanged : Option UpdaterInfo → Text → Text → Type 0
Unchanged ui old bytes = (bytes ≡ old) ⊎ IsDevice ui bytes

module _ (env : Env) (ui : Option UpdaterInfo) (old : Text) where
  abbrev Untouched : Machine → Type 0
  Untouched m = (m.params.canwrite ≡ false) × Unchanged ui old m.device

  moved : {a b : Text} → a ≡ b → Unchanged ui old b → Unchanged ui old a
  moved e (inl h) = inl (e ∙ h)
  moved {a} e (inr h) = inr (rw e h)

  of-Dry : {A : Type 0} (f : M A) → ((bytes : Text) → Keeps (Dry bytes) f) → Keeps Untouched f
  of-Dry f h = record {
    keeps = λ m i. let d = (h m.device).keeps m (i.0, refl) in (d.0, moved d.1 i.1);
  }

  start_update-Untouched :
      (blockdev transfer_list : Text) (new_data : List Text)
      → Keeps Untouched (start_update env (verify_commands env) blockdev transfer_list new_data)
  unfolding start_update
  start_update-Untouched blockdev transfer_list new_data = of-Dry _ (λ bytes. get-Keeps (λ m i.
      bind-Keeps (if-Keeps _ (system_call-Quiet Same-Quiet env) (pure-Keeps _)) (λ fails.
        if-Keeps _ (pure-Keeps _)
          (then-Keeps (modify-Keeps _ (λ s j. j)) (run_transfer_list-Dry env _ _)))))

  if-keeps : (b : Bool) (m n : Machine) → Untouched m → Untouched n → Untouched (if b then m else n)
  if-keeps true m n h k = h
  if-keeps false m n h k = k

  with_device-Untouched :
      (blockdev transfer_list : Text) (new_data : List Text) (content : Option Text)
      → ((bytes : Text) → content ≡ some bytes → IsDevice ui bytes)
      → Keeps Untouched
          (with_device env (verify_commands env) blockdev transfer_list new_data content)
  with_device-Untouched blockdev transfer_list new_data none known =
      bind-Keeps (of-Dry _ (λ bytes. system_call-Quiet Same-Quiet env)) (λ fails. pure-Keeps _)
  with_device-Untouched blockdev transfer_list new_data (some bytes) known =
      bind-Keeps (of-Dry _ (λ b. system_call-Quiet Same-Quiet env)) (λ fails.
        then-Keeps (modify-Keeps _ (λ m i. if-keeps fails m _ i (i.0, inr (known bytes refl))))
          (if-Keeps _ (pure-Keeps _) (start_update-Untouched blockdev transfer_list new_data)))

  abort-Untouched :
      (argument name kind : Text) → Keeps Untouched (argument_error argument name kind)
  unfolding argument_error
  abort-Untouched argument name kind = of-Dry _ (λ bytes. abort_empty-Dry env _ _)

module _ (env : Env) (old : Text) where
  with_entries-Untouched :
      (ui : UpdaterInfo) (blockdev transfer_list : Text) (patch : Option Text)
      (new_data : Option (List Text))
      → Keeps
          (Untouched env (some ui) old)
          (with_entries env (verify_commands env) ui blockdev transfer_list patch new_data)
  with_entries-Untouched ui blockdev transfer_list none new_data = pure-Keeps _
  with_entries-Untouched ui blockdev transfer_list (some patch) none = pure-Keeps _
  with_entries-Untouched ui blockdev transfer_list (some patch) (some new_data) =
      then-Keeps (set_params-Keeps _ (λ m i. i)) (
        with_device-Untouched env (some ui) old blockdev transfer_list new_data _
          (λ bytes e. (c_str blockdev, e)))

  with_info-Untouched :
      (ui : Option UpdaterInfo) (blockdev transfer_list new_data_fn patch_data_fn : Text)
      → Keeps
          (Untouched env ui old)
          (with_info env (verify_commands env) ui blockdev transfer_list new_data_fn patch_data_fn)
  unfolding with_info
  with_info-Untouched none blockdev transfer_list new_data_fn patch_data_fn = pure-Keeps _
  with_info-Untouched (some ui) blockdev transfer_list new_data_fn patch_data_fn =
      if-Keeps _ (with_entries-Untouched ui blockdev transfer_list _ _) (pure-Keeps _)

  with_arguments-Untouched :
      (ui : Option UpdaterInfo) (name : Text) (v0 v1 v2 v3 : Value)
      → Keeps (Untouched env ui old) (with_arguments env (verify_commands env) ui name v0 v1 v2 v3)
  unfolding with_arguments
  with_arguments-Untouched ui name v0 v1 v2 v3 =
      if-Keeps (not (string_type v0.type)) (abort-Untouched env ui old _ _ _) (
        if-Keeps (not (blob_type v1.type)) (abort-Untouched env ui old _ _ _) (
          if-Keeps (not (string_type v2.type)) (abort-Untouched env ui old _ _ _) (
            if-Keeps (not (string_type v3.type)) (abort-Untouched env ui old _ _ _)
              (with_info-Untouched ui _ _ _ _))))

  with_values-Untouched :
      (ui : Option UpdaterInfo) (name : Text) (values : Option (List Value))
      → Keeps (Untouched env ui old) (with_values env (verify_commands env) ui name values)
  with_values-Untouched ui name none = pure-Keeps _
  with_values-Untouched ui name (some []) = stop-Keeps _
  with_values-Untouched ui name (some (v0 ∷ [])) = stop-Keeps _
  with_values-Untouched ui name (some (v0 ∷ v1 ∷ [])) = stop-Keeps _
  with_values-Untouched ui name (some (v0 ∷ v1 ∷ v2 ∷ [])) = stop-Keeps _
  with_values-Untouched ui name (some (v0 ∷ v1 ∷ v2 ∷ v3 ∷ [])) =
      with_arguments-Untouched ui name v0 v1 v2 v3
  with_values-Untouched ui name (some (v0 ∷ v1 ∷ v2 ∷ v3 ∷ v4 ∷ vs)) = stop-Keeps _

  of_action-Untouched :
      (ui : Option UpdaterInfo) {A : Type 0} (r : Edify.Outcome A × State) (m : Machine)
      → Untouched env ui old m
      → Untouched env ui old (of_action r m).1
  of_action-Untouched ui (Edify.null, s) m i = i
  of_action-Untouched ui (Edify.value a, s) m i = i
  of_action-Untouched ui (Edify.fault, s) m i = i

  values-Untouched :
      (ui : Option UpdaterInfo) (name : Text) (f : Edify.Action (List Value))
      → Keeps
          (Untouched env ui old)
          (run_action f >>= with_values env (verify_commands env) ui name)
  values-Untouched ui name f =
      bind-Keeps (record { keeps = λ m i. of_action-Untouched ui (f m.state) m i })
        (with_values-Untouched ui name)

-- Whatever the arguments, the transfer list, the package, the files on /cache and the answers of the
-- system are, and however the call ends: `block_image_verify` leaves the device that the updater has open as
-- it was, or, once it has opened the device that it is told to check, leaves that one as it was opened.
pub block_image_verify_fn-Unchanged :
    (env : Env) (ui : Option UpdaterInfo) (name : Text) (argv : List Arg) (m : Machine)
    → Unchanged ui m.device (block_image_verify_fn env ui name argv m).1.device
unfolding block_image_verify_fn perform_block_image_update new_params ◌>>=◌ ◌>>◌ modify
block_image_verify_fn-Unchanged env ui name argv m =
    ((values-Untouched env m.device ui name (read_value_args (take 4 argv))).keeps _
      (refl, inl refl)).1
