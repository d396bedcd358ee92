-- ===== src/Freecache/Defs.antt =====
-- applypatch/freecache.cpp: the files that may be deleted, and the loop that deletes them. The file
-- system is a parameter: what the directories hold, what processes have open, and how much space is
-- free once some files are gone.
use recovery.Base.{
  ℕ, ltb, leb, Bool, not, ◌||◌, ◌++◌, List, [], ◌∷◌, Text, codes, text_eq, starts_with,
  if◌then◌else◌, Option, none, some,
}
use recovery.Base.Int.{ℤ, pos, negsuc}

-- An entry of a directory: its name, and whether `stat` finds a regular file.
pub record DirEntry : Type 0 where
  pub name : Text
  pub is_regular : Bool

-- An entry of /proc: its name, whether `ParseUint` reads it, and the targets of its open descriptors,
-- where `opendir` and `readlink` succeed.
pub record Process : Type 0 where
  pub name : Text
  pub is_pid : Bool
  pub links : Option (List (Option Text))

pub record System : Type 0 where
  pub opendir : Text → Option (List DirEntry)
  pub proc : Option (List Process)
  pub free_space : List Text → ℕ

abbrev pub cache_temp_source : Text
cache_temp_source = codes "/cache/saved.file"

-- `std::set<std::string>` by its elements in order; the order of the texts is a parameter.
abbrev pub Less : Type 0
Less = Text → Text → Bool

unfoldable pub insert : Less → Text → List Text → List Text
insert less file [] = file ∷ []
insert less file (f ∷ files) =
    let rest = insert less file files in
    if text_eq file f then f ∷ files else if less file f then file ∷ f ∷ files else f ∷ rest

unfoldable pub erase : Text → List Text → List Text
erase file [] = []
erase file (f ∷ files) = let rest = erase file files in if text_eq file f then rest else f ∷ rest

-- The descriptors of one process.
unfoldable pub eliminate_links : List (Option Text) → List Text → List Text
eliminate_links [] files = files
eliminate_links (none ∷ links) files = eliminate_links links files
eliminate_links (some link ∷ links) files =
    eliminate_links links (if starts_with (codes "/cache/") link then erase link files else files)

unfoldable pub eliminate_processes : List Process → List Text → List Text
eliminate_processes [] files = files
eliminate_processes (process ∷ processes) files =
    eliminate_processes processes (if process.is_pid then of_links process.links else files)
  where
    of_links : Option (List (Option Text)) → List Text
    of_links none = files
    of_links (some links) = eliminate_links links files

-- `EliminateOpenFiles`: none where it returns -1.
unfoldable pub eliminate_open_files : System → List Text → Option (List Text)
eliminate_open_files system files = of_proc system.proc
  where
    of_proc : Option (List Process) → Option (List Text)
    of_proc none = none
    of_proc (some processes) = some (eliminate_processes processes files)

unfoldable pub collect_entries : Less → Text → List DirEntry → List Text → List Text
collect_entries less dir [] files = files
collect_entries less dir (entry ∷ entries) files =
    let path = dir ++ codes "/" ++ entry.name in
    collect_entries less dir entries (
      if text_eq path cache_temp_source || not entry.is_regular
      then files
      else insert less path files)

unfoldable pub collect_dirs : Less → System → List Text → List Text → List Text
collect_dirs less system [] files = files
collect_dirs less system (dir ∷ dirs) files =
    collect_dirs less system dirs (of_entries (system.opendir dir))
  where
    of_entries : Option (List DirEntry) → List Text
    of_entries none = files
    of_entries (some entries) = collect_entries less dir entries files

abbrev pub expendable_dirs : List Text
expendable_dirs = codes "/cache" ∷ codes "/cache/recovery/otatest" ∷ []

abbrev pub get_or_empty : Option (List Text) → List Text
get_or_empty none = []
get_or_empty (some files) = files

unfoldable pub find_expendable_files : Less → System → List Text
find_expendable_files less system =
    get_or_empty (eliminate_open_files system (collect_dirs less system expendable_dirs []))

-- The loop of `MakeFreeSpaceOnCache`: the files that it deletes, and `free_now` at its end.
unfoldable pub delete_loop : System → ℕ → List Text → List Text → ℕ → List Text × ℕ
delete_loop system bytes_needed deleted [] free_now = (deleted, free_now)
delete_loop system bytes_needed deleted (file ∷ files) free_now =
    let gone = deleted ++ file ∷ [] in
    let rest = delete_loop system bytes_needed gone files (system.free_space gone) in
    if ltb (system.free_space gone) bytes_needed then (gone, system.free_space gone) else rest

-- `MakeFreeSpaceOnCache` behind its first test: the files that are gone, and the result.
unfoldable pub free_from : System → ℕ → List Text → List Text × ℤ
free_from system bytes_needed [] = ([], negsuc 0)
free_from system bytes_needed (file ∷ files) =
    let (gone, free_now) =
      delete_loop system bytes_needed [] (file ∷ files) (system.free_space []) in
    (gone, if leb bytes_needed free_now then pos 0 else negsuc 0)

-- `MakeFreeSpaceOnCache`.
unfoldable pub make_free_space_on_cache : Less → System → ℕ → List Text × ℤ
make_free_space_on_cache less system bytes_needed =
    let freed = free_from system bytes_needed (find_expendable_files less system) in
    if leb bytes_needed (system.free_space []) then ([], pos 0) else freed
