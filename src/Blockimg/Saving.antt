-- ===== src/Blockimg/Saving.antt =====
-- updater/blockimg.cpp: `CreateStash` and `SaveStash`.
use recovery.Base.{
  ℕ, ◌+◌, ◌-◌, ◌%◌, ◌^◌, ◌==◌, ltb, Bool, true, false, not, ◌&&◌, ◌++◌, List, [], ◌∷◌, length, Text,
  codes, get_elem?, Option, none, some, if◌then◌else◌,
}
use recovery.Base.Int.{ℤ, pos, negsuc, pos_part, neg_part}
use recovery.ErrorCode.{stash_creation_failure}
use recovery.RotateLogs.Defs.{to_string}
use recovery.PrintSha1.{print_sha1}
use recovery.Blockimg.Ranges.{RangeSet, parse_range}
use recovery.Blockimg.Machine.{
  Env, failed, exited, fault, M, ◌>>=◌, ◌>>◌, pure, done, get, stop, modify, set_params, attempt,
  abort_with, system_call, require,
}
use recovery.Blockimg.Transfer.{allocate, size_of, read_blocks, verify_blocks}
use recovery.Blockimg.Stash.{
  has_dir, resolve, get_stash_file_name, Stat, found, missing, error, stat_file, delete_partial,
  stash_names, enumerate_stash, cache_size_check, int_bytes,
}
use recovery.Blockimg.Stashing.{load_stash, write_stash, erase_stash}

-- A number of 32 bits as an `int`.
unfoldable pub to_int : ℕ → ℤ
to_int n = if ltb (n % 2 ^ 32) (2 ^ 31) then pos (n % 2 ^ 32) else negsuc (2 ^ 32 - n % 2 ^ 32 - 1)

-- `UpdateFileSize` after one file: an `int` that is cut to its 32 bits.
unfoldable pub add_size : ℤ → ℕ → ℤ
add_size size n = to_int (pos_part size + 2 ^ 32 - neg_part size + n)

abbrev pub size_of_stat : ℤ → Stat → ℤ
size_of_stat size (found content) = add_size size (length content)
size_of_stat size missing = size
size_of_stat size error = size

-- `EnumerateStash(dirname, UpdateFileSize, &size)`: the sizes of the files, which the names list.
unfoldable pub stash_size : Env → Text → List Text → ℤ → M ℤ
stash_size env dirname [] size = pure size
stash_size env dirname (name ∷ names) size = do
  stat ← stat_file env (dirname ++ (codes "/" ++ name))
  stash_size env dirname names (size_of_stat size stat)

-- The message of a failed call, with its error.
unfoldable pub call_failed : Env → Text → Text → ℕ → Text
call_failed env call dirname time =
    call ++ (codes " \"" ++ (dirname ++ (codes "\" failed: " ++ (env.strerror time ++ codes "\n"))))

-- `CreateStash` where there is no directory.
unfoldable pub make_stash : Env → Text → ℕ → M Bool
make_stash env dirname maxblocks = do
  m ← get
  require (system_call env)
      (abort_with stash_creation_failure (call_failed env (codes "mkdir") dirname m.tick))
  modify (λ s. record s { dirs = resolve dirname ∷ s.dirs })
  fits ← cache_size_check env (int_bytes maxblocks)
  if fits
      then pure true
      else abort_with stash_creation_failure (codes "not enough space for stash\n")

-- `size = maxblocks * BLOCKSIZE - size`: a difference of two `size_t`, cut to an `int`.
unfoldable pub more_needed : ℕ → ℤ → ℤ
more_needed bytes used = to_int (bytes + neg_part used + 2 ^ 64 - pos_part used)

-- Whether that much more is free, if it is more than nothing.
unfoldable pub check_more : Env → ℤ → M Bool
check_more env (negsuc n) = pure false
check_more env (pos more) =
    if more == 0
    then pure false
    else cache_size_check env more >>= λ fits.
        if fits
        then pure false
        else abort_with stash_creation_failure
            (codes "not enough space for stash (" ++ (to_string more ++ codes " more needed)\n"))

-- `CreateStash` where the directory exists.
unfoldable pub reuse_stash : Env → Text → ℕ → M Bool
reuse_stash env dirname maxblocks = do
  enumerate_stash env dirname (delete_partial env)
  names ← stash_names env dirname
  used ← stash_size env dirname names (pos 0)
  check_more env (more_needed (int_bytes maxblocks) used)

-- `CreateStash`: whether it made the directory.
unfoldable pub create_stash : Env → ℕ → Text → M Bool
create_stash env maxblocks blockdev = do
  set_params (λ p. record p { stashbase = print_sha1 (env.sha1 blockdev) })
  before ← get
  fails ← system_call env
  let dirname = get_stash_file_name before.params.stashbase [] []
  if fails
      then abort_with stash_creation_failure (call_failed env (codes "stat") dirname before.tick)
      else if has_dir (resolve dirname) before.dirs
      then reuse_stash env dirname maxblocks
      else make_stash env dirname maxblocks

-- `params.tokens[params.cpos++]`
abbrev pub token_or_fault : Option Text → M Text
token_or_fault none = stop fault
token_or_fault (some t) = pure t

unfoldable pub next_token : M Text
next_token = do
  m ← get
  set_params (λ p. record p { cpos = p.cpos + 1 })
  token_or_fault (get_elem? m.params.tokens m.params.cpos)

abbrev pub range_or_exit : Option RangeSet → M RangeSet
range_or_exit none = stop exited
range_or_exit (some rs) = pure rs

-- `parse_range` of a text; a text that is no range set ends the process.
unfoldable pub parse_or_exit : Env → Text → M RangeSet
parse_or_exit env t = range_or_exit (parse_range env.parse_uint (env.split b',') t)

abbrev pub succeeds : Option (Unit {0}) → Bool
succeeds none = false
succeeds (some _) = true

-- The blocks are read from the source.
unfoldable pub save_blocks : Env → Text → Text → Bool → RangeSet → M (Unit {0})
save_blocks env base id usehash src = do
  allocate (size_of src.size)
  read_blocks env src
  right ← (if usehash then verify_blocks env id src.size else pure true)
  m ← get
  if not right
      then done
      else if not m.params.canwrite && usehash
      then modify (λ s. record s { stash_map = (id, src) ∷ erase_stash id s.stash_map })
      else do
        set_params (λ p. record p { stashed = p.stashed + src.size })
        write_stash env base id src.size

-- `SaveStash`.
unfoldable pub save_stash : Env → Text → Bool → M (Unit {0})
save_stash env base usehash = do
  m ← get
  if ltb (m.params.cpos + 1) (length m.params.tokens) then done else stop failed
  id ← next_token
  loaded ← (if usehash then attempt (load_stash env base id true) else pure none)
  if succeeds loaded
      then done
      else do range ← next_token; src ← parse_or_exit env range; save_blocks env base id usehash src
