-- ===== src/Blockimg/Stash.antt =====
-- updater/blockimg.cpp: the files in which blocks are stashed.
use recovery.Base.{
  ℕ, ◌+◌, ◌-◌, ◌*◌, ◌%◌, ◌^◌, ◌==◌, ltb, Bool, true, false, not, ◌&&◌, ◌||◌, ◌++◌, List, [], ◌∷◌,
  length, drop, Text, codes, text_eq, is_empty, starts_with, Option, none, some, if◌then◌else◌,
}
use recovery.Base.Int.{ℤ, pos, negsuc}
use recovery.Freecache.Defs.{make_free_space_on_cache}
use recovery.Blockimg.Ranges.{block_size}
use recovery.Blockimg.Machine.{
  Env, ok, failed, M, ◌>>=◌, ◌>>◌, pure, done, get, stop, modify, system_call,
}

-- Slashes in a row are one in a path.
unfoldable pub resolve : Text → Text
resolve [] = []
resolve (c ∷ []) = c ∷ []
resolve (c ∷ d ∷ path) =
    let rest = resolve (d ∷ path) in if (c == b'/') && (d == b'/') then rest else c ∷ rest

unfoldable pub find_file : Text → List (Text × Text) → Option Text
find_file name [] = none
find_file name ((n, bytes) ∷ files) = if text_eq n name then some bytes else find_file name files

unfoldable pub remove_file : Text → List (Text × Text) → List (Text × Text)
remove_file name [] = []
remove_file name ((n, bytes) ∷ files) =
    let rest = remove_file name files in if text_eq n name then rest else (n, bytes) ∷ rest

abbrev pub put_file : Text → Text → List (Text × Text) → List (Text × Text)
put_file name bytes files = (name, bytes) ∷ remove_file name files

unfoldable pub has_dir : Text → List Text → Bool
has_dir name [] = false
has_dir name (d ∷ dirs) = text_eq d name || has_dir name dirs

-- `GetStashFileName`.
unfoldable pub get_stash_file_name : Text → Text → Text → Text
get_stash_file_name base id postfix =
    if is_empty base
    then []
    else codes "/cache/recovery" ++ (codes "/" ++ (base ++ (codes "/" ++ (id ++ postfix))))

-- What `stat` finds.
pub data Stat : Type 0 where
  found : Text → Stat
  missing : Stat
  error : Stat

abbrev pub stat_of : Option Text → Stat
stat_of none = missing
stat_of (some bytes) = found bytes

unfoldable pub stat_file : Env → Text → M Stat
stat_file env name = do
  fails ← system_call env
  m ← get
  pure (if fails then error else stat_of (find_file (resolve name) m.files))

-- `DeleteFile`: a failure is only logged.
unfoldable pub delete_file : Env → Text → M (Unit {0})
delete_file env name =
    if is_empty name
    then done
    else system_call env >>= λ fails.
        if fails
        then done
        else modify (λ m. record m { files = remove_file (resolve name) m.files })

unfoldable pub ends_with : Text → Text → Bool
ends_with postfix [] = is_empty postfix
ends_with postfix (c ∷ t) = text_eq postfix (c ∷ t) || ends_with postfix t

-- `DeletePartial`.
unfoldable pub delete_partial : Env → Text → M (Unit {0})
delete_partial env name = if ends_with (codes ".partial") name then delete_file env name else done

unfoldable pub no_slash : Text → Bool
no_slash [] = true
no_slash (c ∷ t) = not (c == b'/') && no_slash t

-- The names of the files in a directory, whose path ends with a slash.
unfoldable pub names_in : Text → List (Text × Text) → List Text
names_in dir [] = []
names_in dir ((n, bytes) ∷ files) =
    let rest = names_in dir files in
    if starts_with dir n && no_slash (drop (length dir) n) then drop (length dir) n ∷ rest else rest

unfoldable pub for_each : (Text → M (Unit {0})) → Text → List Text → M (Unit {0})
for_each callback dirname [] = done
for_each callback dirname (name ∷ names) =
    callback (dirname ++ (codes "/" ++ name)) >> for_each callback dirname names

-- The names that `opendir` and `readdir` give, if the directory can be read.
unfoldable pub stash_names : Env → Text → M (List Text)
stash_names env dirname = do
  fails ← system_call env
  m ← get
  pure (
      if fails || not (has_dir (resolve dirname) m.dirs)
      then []
      else names_in (resolve (dirname ++ codes "/")) m.files)

-- `EnumerateStash`: the directory is read before the calls.
unfoldable pub enumerate_stash : Env → Text → (Text → M (Unit {0})) → M (Unit {0})
enumerate_stash env dirname callback =
    if is_empty dirname then done else (stash_names env dirname >>= for_each callback dirname)

unfoldable pub remove_dir : Text → List Text → List Text
remove_dir name [] = []
remove_dir name (d ∷ dirs) =
    let rest = remove_dir name dirs in if text_eq d name then rest else d ∷ rest

abbrev pub no_names : List Text → Bool
no_names [] = true
no_names (_ ∷ _) = false

-- `rmdir` of a directory: it has to be empty.
unfoldable pub rmdir : Env → Text → M (Unit {0})
rmdir env dirname = do
  fails ← system_call env
  m ← get
  if fails || not (no_names (names_in (resolve (dirname ++ codes "/")) m.files))
      then done
      else modify (λ s. record s { dirs = remove_dir (resolve dirname) s.dirs })

-- `DeleteStash`.
unfoldable pub delete_stash : Env → Text → M (Unit {0})
delete_stash env base =
    if is_empty base
    then done
    else enumerate_stash env (get_stash_file_name base [] []) (delete_file env)
      >> rmdir env (get_stash_file_name base [] [])

-- `FreeStash`.
unfoldable pub free_stash : Env → Text → Text → M (Unit {0})
free_stash env base id =
    if is_empty base || is_empty id
    then stop failed
    else delete_file env (get_stash_file_name base id [])

abbrev pub is_success : ℤ → Bool
is_success (pos _) = true
is_success (negsuc _) = false

-- `CacheSizeCheck`: whether there is room. What it deletes are files of other directories.
unfoldable pub cache_size_check : Env → ℕ → M Bool
cache_size_check env bytes m = (
  ok (is_success (make_free_space_on_cache env.less (env.cache m.tick) bytes).1),
  record m { tick = m.tick + 1 },
)

-- `blocks * BLOCKSIZE`, where `blocks` is the `int` with the low 32 bits of the number: a product of two
-- `size_t`, to which a negative `int` is extended by its sign.
unfoldable pub int_bytes : ℕ → ℕ
int_bytes blocks =
    if ltb (blocks % 2 ^ 32) (2 ^ 31)
    then blocks % 2 ^ 32 * block_size
    else (2 ^ 64 - 2 ^ 32 + blocks % 2 ^ 32) * block_size % 2 ^ 64
