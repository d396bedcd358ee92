-- ===== src/Blockimg/Quiet.antt =====
-- updater/blockimg.cpp: what does not mention the clock, the offset, the reports of failures and the files on
-- /cache, is kept by system calls, by reads and by all that handles stash files.
use recovery.Base.{
  ℕ, suc, zero, ◌-◌, Bool, true, false, List, [], ◌∷◌, Text, Option, none, some, if◌then◌else◌,
  drop, length,
}
use recovery.ErrorCode.{CauseCode}
use recovery.Edify.Defs.{State}
use recovery.Blockimg.Machine.{Env, Machine, Outcome, M, fail_as, abort_with, system_call}
use recovery.Blockimg.Transfer.{
  received, read_call, read_loop, read_all, file, sent, write_call, write_loop, write_all,
  check_lseek, verify_blocks,
}
use recovery.Blockimg.Stash.{
  stat_file, delete_file, delete_partial, for_each, stash_names, enumerate_stash, rmdir,
  delete_stash, free_stash, cache_size_check, get_stash_file_name,
}
use recovery.Blockimg.Stashing.{create_file, write_stash_file, write_stash, write_stash_checked}
use recovery.Blockimg.Keeps.{
  Keeps, bind-Keeps, then-Keeps, get-Keeps, pure-Keeps, stop-Keeps, done-Keeps, if-Keeps,
  modify-Keeps, require-Keeps,
}

-- A statement that says nothing of these.
pub record Quiet (I : Machine → Type 0) : Type 0 where
  pub ticks : (m : Machine) (n : ℕ) → I m → I (record m { tick = n })
  pub causes : (m : Machine) (c : CauseCode) → I m → I (record m { failure_type = c })
  pub offsets : (m : Machine) (n : ℕ) → I m → I (record m { offset = n })
  pub states : (m : Machine) (s : State) → I m → I (record m { state = s })
  pub files : (m : Machine) (f : List (Text × Text)) → I m → I (record m { files = f })
  pub dirs : (m : Machine) (d : List Text) → I m → I (record m { dirs = d })

module _ {I : Machine → Type 0} (q : Quiet I) (env : Env) where
  pub fail_as-Quiet : {A : Type 0} (cause : CauseCode) → Keeps I (fail_as {A = A} cause)
  unfolding fail_as
  fail_as-Quiet cause = record { keeps = λ m i. q.causes m _ i }

  pub abort_with-Quiet :
      {A : Type 0} (cause : CauseCode) (message : Text) → Keeps I (abort_with {A = A} cause message)
  unfolding abort_with
  abort_with-Quiet cause message = record { keeps = λ m i. q.states m _ i }

  pub system_call-Quiet : Keeps I (system_call env)
  unfolding system_call
  system_call-Quiet = record { keeps = λ m i. q.ticks m _ i }

  received-Quiet : (left size : ℕ) (answer : Option ℕ) → Keeps I (received left size answer)
  received-Quiet left size none = fail_as-Quiet _
  received-Quiet left size (some n) = if-Keeps _ (fail_as-Quiet _) (pure-Keeps _)

  read_call-Quiet : (left size : ℕ) → Keeps I (read_call env left size)
  unfolding read_call
  read_call-Quiet left size = record {
    keeps = λ m i. (received-Quiet left size (env.read_result m.tick size)).keeps _ (q.ticks m _ i);
  }

  read_loop-Quiet :
      (fuel : ℕ) (content : Text) (size : ℕ) → Keeps I (read_loop env fuel content size)
  unfolding read_loop
  read_loop-Quiet zero content size = pure-Keeps _
  read_loop-Quiet (suc fuel) content zero = pure-Keeps _
  read_loop-Quiet (suc fuel) content (suc size) = bind-Keeps (read_call-Quiet _ _) (λ n.
      bind-Keeps (read_loop-Quiet fuel (drop n content) (suc size - n)) (λ rest. pure-Keeps _))

  pub read_all-Quiet : (content : Text) (size : ℕ) → Keeps I (read_all env content size)
  unfolding read_all
  read_all-Quiet content size = read_loop-Quiet size content size

  pub check_lseek-Quiet : (place : ℕ) → Keeps I (check_lseek env place)
  unfolding check_lseek
  check_lseek-Quiet place =
      then-Keeps (require-Keeps system_call-Quiet (fail_as-Quiet _))
        (modify-Keeps _ (λ m i. q.offsets m place i))

  pub verify_blocks-Quiet :
      (expected : Text) (blocks : ℕ) → Keeps I (verify_blocks env expected blocks)
  unfolding verify_blocks
  verify_blocks-Quiet expected blocks = get-Keeps (λ m i. if-Keeps _ (stop-Keeps _) (pure-Keeps _))

  if-quiet :
      (b : Bool) {A : Type 0} (r s : Outcome A × Machine) → I r.1 → I s.1 → I (if b then r else s).1
  if-quiet true r s h k = h
  if-quiet false r s h k = k

  sent-Quiet : (name part : Text) (answer : Option ℕ) → Keeps I (sent (file name) part answer)
  unfolding sent fail_as
  sent-Quiet name part none = record { keeps = λ m i. q.causes m _ i }
  sent-Quiet name part (some n) = record {
    keeps = λ m i. if-quiet _ _ _ (q.causes m _ i) (q.files m _ i);
  }

  write_call-Quiet : (name part : Text) → Keeps I (write_call env (file name) part)
  unfolding write_call
  write_call-Quiet name part = record {
    keeps = λ m i.
        (sent-Quiet name part (env.write_result m.tick (length part))).keeps _ (q.ticks m _ i);
  }

  write_loop-Quiet :
      (name : Text) (fuel : ℕ) (part : Text) → Keeps I (write_loop env (file name) fuel part)
  unfolding write_loop
  write_loop-Quiet name zero part = done-Keeps
  write_loop-Quiet name (suc fuel) [] = done-Keeps
  write_loop-Quiet name (suc fuel) (b ∷ part) =
      bind-Keeps (write_call-Quiet name (b ∷ part))
        (λ n. write_loop-Quiet name fuel (drop n (b ∷ part)))

  pub write_all-Quiet : (name part : Text) → Keeps I (write_all env (file name) part)
  unfolding write_all
  write_all-Quiet name part = write_loop-Quiet name (length part) part

  pub stat_file-Quiet : (name : Text) → Keeps I (stat_file env name)
  unfolding stat_file
  stat_file-Quiet name = bind-Keeps system_call-Quiet (λ fails. get-Keeps (λ m i. pure-Keeps _))

  pub delete_file-Quiet : (name : Text) → Keeps I (delete_file env name)
  unfolding delete_file
  delete_file-Quiet name = if-Keeps _ done-Keeps (
      bind-Keeps system_call-Quiet
        (λ fails. if-Keeps _ done-Keeps (modify-Keeps _ (λ m i. q.files m _ i))))

  pub delete_partial-Quiet : (name : Text) → Keeps I (delete_partial env name)
  unfolding delete_partial
  delete_partial-Quiet name = if-Keeps _ (delete_file-Quiet name) done-Keeps

  for_each-Quiet :
      (callback : Text → M (Unit {0}))
      → ((name : Text) → Keeps I (callback name))
      → (dirname : Text) (names : List Text) → Keeps I (for_each callback dirname names)
  unfolding for_each
  for_each-Quiet callback h dirname [] = done-Keeps
  for_each-Quiet callback h dirname (name ∷ names) =
      then-Keeps (h _) (for_each-Quiet callback h dirname names)

  pub stash_names-Quiet : (dirname : Text) → Keeps I (stash_names env dirname)
  unfolding stash_names
  stash_names-Quiet dirname =
      bind-Keeps system_call-Quiet (λ fails. get-Keeps (λ m i. pure-Keeps _))

  pub enumerate_stash-Quiet :
      (dirname : Text) (callback : Text → M (Unit {0}))
      → ((name : Text) → Keeps I (callback name))
      → Keeps I (enumerate_stash env dirname callback)
  unfolding enumerate_stash
  enumerate_stash-Quiet dirname callback h =
      if-Keeps _ done-Keeps
        (bind-Keeps (stash_names-Quiet dirname) (for_each-Quiet callback h dirname))

  rmdir-Quiet : (dirname : Text) → Keeps I (rmdir env dirname)
  unfolding rmdir
  rmdir-Quiet dirname =
      bind-Keeps system_call-Quiet
        (λ fails. get-Keeps (λ m i. if-Keeps _ done-Keeps (modify-Keeps _ (λ s j. q.dirs s _ j))))

  pub delete_stash-Quiet : (base : Text) → Keeps I (delete_stash env base)
  unfolding delete_stash
  delete_stash-Quiet base = if-Keeps _ done-Keeps (
      then-Keeps (enumerate_stash-Quiet _ _ delete_file-Quiet)
        (rmdir-Quiet (get_stash_file_name base [] [])))

  pub free_stash-Quiet : (base id : Text) → Keeps I (free_stash env base id)
  unfolding free_stash
  free_stash-Quiet base id = if-Keeps _ (stop-Keeps _) (delete_file-Quiet _)

  pub cache_size_check-Quiet : (size : ℕ) → Keeps I (cache_size_check env size)
  unfolding cache_size_check
  cache_size_check-Quiet size = record { keeps = λ m i. q.ticks m _ i }

  create_file-Quiet : (dirname name : Text) → Keeps I (create_file env dirname name)
  unfolding create_file
  create_file-Quiet dirname name = bind-Keeps system_call-Quiet (λ fails. get-Keeps (λ m i.
      then-Keeps (if-Keeps _ (stop-Keeps _) done-Keeps) (modify-Keeps _ (λ s j. q.files s _ j))))

  write_stash_file-Quiet : (base id : Text) (size : ℕ) → Keeps I (write_stash_file env base id size)
  unfolding write_stash_file
  write_stash_file-Quiet base id size = then-Keeps (create_file-Quiet _ _) (
      get-Keeps (λ m i. then-Keeps (if-Keeps _ (stop-Keeps _) done-Keeps) (
        then-Keeps (write_all-Quiet _ _) (
          then-Keeps (require-Keeps system_call-Quiet (fail_as-Quiet _)) (
            then-Keeps (require-Keeps system_call-Quiet (stop-Keeps _)) (
              then-Keeps (modify-Keeps _ (λ s j. q.files s _ j)) (
                then-Keeps (require-Keeps system_call-Quiet (fail_as-Quiet _))
                  (require-Keeps system_call-Quiet (fail_as-Quiet _)))))))))

  pub write_stash-Quiet : (base id : Text) (blocks : ℕ) → Keeps I (write_stash env base id blocks)
  unfolding write_stash
  write_stash-Quiet base id blocks = if-Keeps _ (stop-Keeps _) (write_stash_file-Quiet base id _)

  pub write_stash_checked-Quiet :
      (base id : Text) (blocks : ℕ) → Keeps I (write_stash_checked env base id blocks)
  unfolding write_stash_checked
  write_stash_checked-Quiet base id blocks = if-Keeps _ (stop-Keeps _) (
      bind-Keeps (cache_size_check-Quiet _) (λ fits.
        then-Keeps (if-Keeps _ done-Keeps (stop-Keeps _)) (
          bind-Keeps (stat_file-Quiet _) (λ stat.
            if-Keeps _ (pure-Keeps _)
              (then-Keeps (write_stash_file-Quiet base id _) (pure-Keeps _))))))
