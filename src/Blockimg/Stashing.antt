-- ===== src/Blockimg/Stashing.antt =====
-- updater/blockimg.cpp: `LoadStash`, `WriteStash`.
use recovery.Base.{
  ℕ, ◌/◌, ◌%◌, ◌==◌, ltb, Bool, true, false, not, ◌&&◌, ◌||◌, List, [], ◌∷◌, length, take, Text,
  codes, text_eq, is_empty, Option, none, some, if◌then◌else◌,
}
use recovery.ErrorCode.{fsync_failure, file_open_failure}
use recovery.Blockimg.Ranges.{RangeSet, block_size}
use recovery.Blockimg.Machine.{
  Env, failed, fault, M, ◌>>=◌, ◌>>◌, pure, done, get, stop, modify, fail_as, system_call, require,
}
use recovery.Blockimg.Transfer.{
  file, splice, read_all, write_all, allocate, size_of, read_blocks, verify_blocks,
}
use recovery.Blockimg.Stash.{
  find_file, remove_file, put_file, has_dir, resolve, get_stash_file_name, Stat, found, missing,
  error, stat_file, delete_file, cache_size_check, int_bytes,
}

unfoldable pub find_stash : Text → List (Text × RangeSet) → Option RangeSet
find_stash id [] = none
find_stash id ((i, src) ∷ stash_map) = if text_eq i id then some src else find_stash id stash_map

unfoldable pub erase_stash : Text → List (Text × RangeSet) → List (Text × RangeSet)
erase_stash id [] = []
erase_stash id ((i, src) ∷ stash_map) =
    let rest = erase_stash id stash_map in if text_eq i id then rest else (i, src) ∷ rest

-- In verify mode: the source blocks that a stash command has named.
unfoldable pub load_source : Env → Text → RangeSet → M (Unit {0})
load_source env id src = do
  allocate (size_of src.size)
  read_blocks env src
  right ← verify_blocks env id src.size
  if right then done else stop failed

-- The file's bytes are read into the buffer.
unfoldable pub load_bytes : Env → Text → Text → Bool → Text → M (Unit {0})
load_bytes env id name verify content =
    if not (length content % block_size == 0) then stop failed else do
      require (system_call env) (stop failed)
      allocate (length content)
      bytes ← read_all env content (length content)
      modify (λ m. record m { buffer = splice m.buffer 0 bytes })
      right ← verify_blocks env id (length content / block_size)
      if verify && not right then (delete_file env name >> stop failed) else done

abbrev pub load_found : Env → Text → Text → Bool → Stat → M (Unit {0})
load_found env id name verify (found content) = load_bytes env id name verify content
load_found env id name verify missing = stop failed
load_found env id name verify error = stop failed

unfoldable pub load_file : Env → Text → Text → Bool → M (Unit {0})
load_file env base id verify =
    if is_empty base
    then stop failed
    else (stat_file env (get_stash_file_name base id [])
        >>= load_found env id (get_stash_file_name base id []) verify)

abbrev pub load_from : Env → Text → Text → Bool → Option RangeSet → M (Unit {0})
load_from env base id verify (some src) = load_source env id src
load_from env base id verify none = load_file env base id verify

-- `LoadStash`, without the number of blocks, which no caller reads.
unfoldable pub load_stash : Env → Text → Text → Bool → M (Unit {0})
load_stash env base id verify = do
  m ← get
  load_from env base id verify (if m.params.canwrite then none else find_stash id m.stash_map)

abbrev pub moved_to : Text → List (Text × Text) → Option Text → List (Text × Text)
moved_to to files none = files
moved_to to files (some bytes) = put_file to bytes files

-- `rename`: the new name stands for the old file, and no longer for what it was.
unfoldable pub renamed : Text → Text → List (Text × Text) → List (Text × Text)
renamed from to files = moved_to to (remove_file from files) (find_file from files)

-- `open(name, O_WRONLY | O_CREAT | O_TRUNC)` of a file in the directory.
unfoldable pub create_file : Env → Text → Text → M (Unit {0})
create_file env dirname name = do
  fails ← system_call env
  m ← get
  if fails || not (has_dir (resolve dirname) m.dirs) then stop failed else done
  modify (λ s. record s { files = put_file (resolve name) [] s.files })

-- `WriteStash` from where the file is opened.
unfoldable pub write_stash_file : Env → Text → Text → ℕ → M (Unit {0})
write_stash_file env base id bytes = do
  create_file env (get_stash_file_name base [] []) (get_stash_file_name base id (codes ".partial"))
  m ← get
  if ltb (length m.buffer) bytes then stop fault else done
  write_all env (file (resolve (get_stash_file_name base id (codes ".partial"))))
      (take bytes m.buffer)
  require (system_call env) (fail_as fsync_failure)
  require (system_call env) (stop failed)
  modify (λ s. record s {
    files =
        renamed (resolve (get_stash_file_name base id (codes ".partial")))
          (resolve (get_stash_file_name base id [])) s.files;
  })
  require (system_call env) (fail_as file_open_failure)
  require (system_call env) (fail_as fsync_failure)

abbrev pub is_found : Stat → Bool
is_found (found _) = true
is_found missing = false
is_found error = false

-- `WriteStash` without a check of the space and of the file, as `SaveStash` calls it.
unfoldable pub write_stash : Env → Text → Text → ℕ → M (Unit {0})
write_stash env base id blocks =
    if is_empty base then stop failed else write_stash_file env base id (int_bytes blocks)

-- `WriteStash` with both: whether the file exists already.
unfoldable pub write_stash_checked : Env → Text → Text → ℕ → M Bool
write_stash_checked env base id blocks = if is_empty base then stop failed else do
  fits ← cache_size_check env (int_bytes blocks)
  if fits then done else stop failed
  stat ← stat_file env (get_stash_file_name base id [])
  if is_found stat
      then pure true
      else (write_stash_file env base id (int_bytes blocks) >> pure false)
