-- ===== src/Blockimg/DryRun/Commands.antt =====
-- updater/blockimg.cpp: the commands that `block_image_verify` performs leave the device alone, whatever
-- the transfer list holds.
use recovery.Base.{
  ℕ, ◌≡◌, Bool, true, false, ◌&&◌, List, [], ◌∷◌, Text, codes, text_eq, Option, none, some,
  if◌then◌else◌,
}
use recovery.ErrorCode.{CauseCode}
use recovery.Blockimg.Machine.{Env, Machine, M}
use recovery.Blockimg.Load.{Loaded}
use recovery.Blockimg.Commands.{
  load_src_tgt, free_own_stash, perform_loaded, perform_command_move, perform_command_stash,
  perform_command_free, perform_command_diff,
}
use recovery.Blockimg.Update.{
  abort_empty, run_command, run_line, run_lines, complete, finish_update, run_commands,
  stashed_result, with_stash_max, stash_lines, with_total, with_version, run_transfer_list,
}
use recovery.Blockimg.Functions.{verify_commands}
use recovery.Blockimg.Keeps.{
  Keeps, bind-Keeps, then-Keeps, get-Keeps, pure-Keeps, stop-Keeps, done-Keeps, if-Keeps,
  attempt-Keeps, modify-Keeps, set_params-Keeps, require-Keeps,
}
use recovery.Blockimg.DryRun.{Dry, Same-Quiet}
use recovery.Blockimg.Quiet.{delete_stash-Quiet, fail_as-Quiet, free_stash-Quiet, system_call-Quiet}
use recovery.Blockimg.DryRun.Stashes.{create_stash-Same}
use recovery.Blockimg.DryRun.Loads.{
  next_token-Same, need_tokens-Same, count_or_fail-Same, save_stash-Same,
  load_src_tgt_version1-Same, load_src_tgt_version2-Same, load_src_tgt_version3-Same,
}

-- A branch that is not taken.
pub off-Keeps :
    {I : Machine → Type 0} {A : Type 0} (b : Bool) (f : M A) {g : M A}
    → b ≡ false
    → Keeps I g
    → Keeps I (if b then f else g)
off-Keeps b f e h = rw e h

and_off : (a b : Bool) → a ≡ false → (a && b) ≡ false
and_off a b e = rw e

module _ {bytes : Text} (env : Env) where
  load_src_tgt-Dry : (onehash : Bool) → Keeps (Dry bytes) (load_src_tgt env onehash)
  unfolding load_src_tgt
  load_src_tgt-Dry onehash = get-Keeps (λ m i.
      if-Keeps _ (load_src_tgt_version1-Same env)
        (if-Keeps _ (load_src_tgt_version2-Same env _) (load_src_tgt_version3-Same env onehash)))

  free_own_stash-Dry : Keeps (Dry bytes) (free_own_stash env)
  unfolding free_own_stash
  free_own_stash-Dry = get-Keeps (λ m i. if-Keeps _ done-Keeps (
      bind-Keeps (attempt-Keeps (free_stash-Quiet Same-Quiet env _ _))
        (λ freed. set_params-Keeps _ (λ s j. j))))

  -- The write is not made.
  perform_loaded-Dry :
      (loaded : Loaded) (write : M (Unit {0})) → Keeps (Dry bytes) (perform_loaded env loaded write)
  unfolding perform_loaded
  perform_loaded-Dry loaded write = then-Keeps (set_params-Keeps _ (λ m i. i)) (
      get-Keeps (λ m i.
        then-Keeps (off-Keeps _ write (and_off m.params.canwrite _ i.0) done-Keeps)
          (then-Keeps free_own_stash-Dry (set_params-Keeps _ (λ s j. j)))))

  perform_command_move-Dry : Keeps (Dry bytes) (perform_command_move env)
  unfolding perform_command_move
  perform_command_move-Dry =
      bind-Keeps (load_src_tgt-Dry true) (λ loaded. perform_loaded-Dry loaded _)

  perform_command_stash-Dry : Keeps (Dry bytes) (perform_command_stash env)
  unfolding perform_command_stash
  perform_command_stash-Dry = get-Keeps (λ m i. save_stash-Same env _ _)

  perform_command_free-Dry : Keeps (Dry bytes) (perform_command_free env)
  unfolding perform_command_free
  perform_command_free-Dry = then-Keeps (need_tokens-Same env _) (
      bind-Keeps (next_token-Same env) (λ id. get-Keeps (λ m i.
        if-Keeps _ (modify-Keeps _ (λ s j. j))
          (if-Keeps _ (free_stash-Quiet Same-Quiet env _ _) done-Keeps))))

  perform_command_diff-Dry : Keeps (Dry bytes) (perform_command_diff env)
  unfolding perform_command_diff
  perform_command_diff-Dry = then-Keeps (need_tokens-Same env _) (
      bind-Keeps (next_token-Same env) (λ offset_text.
        bind-Keeps (count_or_fail-Same env _) (λ offset.
          bind-Keeps (next_token-Same env) (λ len_text.
            bind-Keeps (count_or_fail-Same env _) (λ len.
              bind-Keeps (load_src_tgt-Dry false) (λ loaded. perform_loaded-Dry loaded _))))))

  table-Keeps :
      (b : Bool) (c d : Option (Option (M (Unit {0}))))
      → Keeps (Dry bytes) (run_command c)
      → Keeps (Dry bytes) (run_command d)
      → Keeps (Dry bytes) (run_command (if b then c else d))
  table-Keeps true c d h k = h
  table-Keeps false c d h k = k

  run-Keeps :
      {f : M (Unit {0})} → Keeps (Dry bytes) f → Keeps (Dry bytes) (run_command (some (some f)))
  unfolding run_command
  run-Keeps h = h

  null-Keeps : Keeps (Dry bytes) (run_command (some none))
  unfolding run_command
  null-Keeps = done-Keeps

  unknown-Keeps : Keeps (Dry bytes) (run_command none)
  unfolding run_command
  unknown-Keeps = stop-Keeps _

  verify_commands-Dry : (name : Text) → Keeps (Dry bytes) (run_command (verify_commands env name))
  unfolding verify_commands
  verify_commands-Dry name = table-Keeps _ _ _ (run-Keeps perform_command_diff-Dry) (
      table-Keeps _ _ _ (run-Keeps perform_command_free-Dry) (
        table-Keeps _ _ _ (run-Keeps perform_command_move-Dry) (
          table-Keeps _ _ _ (run-Keeps perform_command_stash-Dry) (
            table-Keeps (text_eq name (codes "erase")) _ _ null-Keeps (
              table-Keeps (text_eq name (codes "new")) _ _ null-Keeps
                (table-Keeps (text_eq name (codes "zero")) _ _ null-Keeps unknown-Keeps))))))

  run_lines-Dry :
      (lines : List Text) → Keeps (Dry bytes) (run_lines env (verify_commands env) lines)
  unfolding run_lines run_line
  run_lines-Dry [] = done-Keeps
  run_lines-Dry ([] ∷ lines) = run_lines-Dry lines
  run_lines-Dry ((c ∷ line) ∷ lines) =
      then-Keeps
        (then-Keeps (set_params-Keeps _ (λ m i. i)) (
          bind-Keeps (next_token-Same env) (λ name. then-Keeps (set_params-Keeps _ (λ m i. i)) (
            then-Keeps (verify_commands-Dry name) (
              get-Keeps (λ m i.
                if-Keeps _
                  (require-Keeps (system_call-Quiet Same-Quiet env)
                    (fail_as-Quiet Same-Quiet env _))
                  done-Keeps))))))
        (run_lines-Dry lines)

  complete-Dry : Keeps (Dry bytes) (complete env)
  unfolding complete
  complete-Dry = get-Keeps (λ m i.
      if-Keeps _ (if-Keeps _ (delete_stash-Quiet Same-Quiet env _) (stop-Keeps _)) done-Keeps)

  if_failed-Dry :
      (b : Bool) (m : Machine) (cause : CauseCode)
      → Dry bytes m
      → Dry bytes (if b then record m { failure_type = cause } else m)
  if_failed-Dry true m cause i = i
  if_failed-Dry false m cause i = i

  if_cause-Dry :
      (b : Bool) (m : Machine) (cause : CauseCode)
      → Dry bytes m
      → Dry bytes (if b then record m { state = record m.state { cause_code = cause } } else m)
  if_cause-Dry true m cause i = i
  if_cause-Dry false m cause i = i

  finish_update-Dry : (success : Bool) → Keeps (Dry bytes) (finish_update env success)
  unfolding finish_update
  finish_update-Dry success = bind-Keeps (system_call-Quiet Same-Quiet env) (λ fails.
      then-Keeps (modify-Keeps _ (λ m i. if_failed-Dry fails m _ i)) (
        get-Keeps (λ m i.
          then-Keeps (if-Keeps _ (delete_stash-Quiet Same-Quiet env _) done-Keeps)
            (then-Keeps (modify-Keeps _ (λ s j. if_cause-Dry _ s _ j)) (pure-Keeps _)))))

  run_commands-Dry :
      (lines : List Text) → Keeps (Dry bytes) (run_commands env (verify_commands env) lines)
  unfolding run_commands
  run_commands-Dry lines =
      bind-Keeps (attempt-Keeps (then-Keeps (run_lines-Dry lines) complete-Dry))
        (λ finished. finish_update-Dry _)

  pub abort_empty-Dry :
      (cause : CauseCode) (message : Text) → Keeps (Dry bytes) (abort_empty cause message)
  unfolding abort_empty
  abort_empty-Dry cause message = record { keeps = λ m i. i }

  stashed_result-Dry :
      (lines : List Text) (created : Option Bool)
      → Keeps (Dry bytes) (stashed_result env (verify_commands env) lines created)
  stashed_result-Dry lines none = pure-Keeps _
  stashed_result-Dry lines (some created) =
      then-Keeps (set_params-Keeps _ (λ m i. i)) (run_commands-Dry lines)

  with_stash_max-Dry :
      (blockdev text : Text) (lines : List Text) (max : Option ℕ)
      → Keeps (Dry bytes) (with_stash_max env (verify_commands env) blockdev text lines max)
  with_stash_max-Dry blockdev text lines none = abort_empty-Dry _ _
  with_stash_max-Dry blockdev text lines (some max) =
      bind-Keeps (attempt-Keeps (create_stash-Same env max blockdev)) (stashed_result-Dry lines)

  stash_lines-Dry :
      (blockdev : Text) (lines rest : List Text)
      → Keeps (Dry bytes) (stash_lines env (verify_commands env) blockdev lines rest)
  stash_lines-Dry blockdev lines [] = abort_empty-Dry _ _
  stash_lines-Dry blockdev lines (entries ∷ []) = abort_empty-Dry _ _
  stash_lines-Dry blockdev lines (entries ∷ max ∷ rest) = with_stash_max-Dry blockdev max rest _

  with_total-Dry :
      (blockdev text : Text) (lines rest : List Text) (total : Option ℕ)
      → Keeps (Dry bytes) (with_total env (verify_commands env) blockdev text lines rest total)
  with_total-Dry blockdev text lines rest none = abort_empty-Dry _ _
  with_total-Dry blockdev text lines rest (some total) = get-Keeps (λ m i.
      if-Keeps _ (pure-Keeps _)
        (if-Keeps _ (stash_lines-Dry blockdev lines rest) (run_commands-Dry rest)))

  with_version-Dry :
      (blockdev total : Text) (lines rest : List Text) (version : Option ℕ)
      → Keeps (Dry bytes) (with_version env (verify_commands env) blockdev total lines rest version)
  with_version-Dry blockdev total lines rest none = pure-Keeps _
  with_version-Dry blockdev total lines rest (some version) =
      then-Keeps (set_params-Keeps _ (λ m i. i)) (with_total-Dry blockdev total lines rest _)

  pub run_transfer_list-Dry :
      (blockdev : Text) (lines : List Text)
      → Keeps (Dry bytes) (run_transfer_list env (verify_commands env) blockdev lines)
  unfolding run_transfer_list
  run_transfer_list-Dry blockdev [] = abort_empty-Dry _ _
  run_transfer_list-Dry blockdev (version ∷ []) = abort_empty-Dry _ _
  run_transfer_list-Dry blockdev (version ∷ total ∷ rest) =
      with_version-Dry blockdev total (version ∷ total ∷ rest) rest _
