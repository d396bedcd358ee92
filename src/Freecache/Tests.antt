-- ===== src/Freecache/Tests.antt =====
-- applypatch/freecache.cpp: a cache with three files.
use recovery.Base.{
  ◌*◌, ◌≡◌, ◌≤◌, ◌↔◌, refl, ◌==◌, true, false, [], ◌∷◌, none, some, length, codes, Text, arith, ltb,
  if◌then◌else◌, length-append, text_eq,
}
use recovery.Base.Int.{pos, negsuc}
use recovery.Freecache.Defs.{
  System, Less, insert, erase, eliminate_links, eliminate_processes, eliminate_open_files,
  collect_entries, collect_dirs, find_expendable_files, delete_loop, free_from,
  make_free_space_on_cache,
}
use recovery.Freecache.Expendable.{In, here}
use recovery.Freecache.Space.{IsDeletable, make_free_space_on_cache-IsDeletable}
use recovery.Freecache.Loop.{
  Frees, make_free_space_on_cache-succeeds_iff, make_free_space_on_cache-one_or_all,
}

abbrev less : Less
less [] [] = false
less [] (_ ∷ _) = true
less (_ ∷ _) [] = false
less (a ∷ s) (b ∷ t) = let rest = less s t in if a == b then rest else ltb a b

-- /cache holds b, a, c, the saved source and a directory; a process has c open. Each deleted file frees
-- ten bytes.
abbrev system : System
system = record {
  opendir = λ dir.
      if text_eq dir (codes "/cache")
      then some (
          record { name = codes "b"; is_regular = true }
          ∷ record { name = codes "saved.file"; is_regular = true }
          ∷ record { name = codes "a"; is_regular = true }
          ∷ record { name = codes "recovery"; is_regular = false }
          ∷ record { name = codes "c"; is_regular = true }
          ∷ [])
      else none;
  proc = some (
      record { name = codes "self"; is_pid = false; links = none }
      ∷ record {
        name = codes "12";
        is_pid = true;
        links = some (none ∷ some (codes "/cache/c") ∷ []);
      }
      ∷ []);
  free_space = λ gone. 10 * length gone;
}

abbrev file_a : Text
file_a = codes "/cache/a"

abbrev file_b : Text
file_b = codes "/cache/b"

expendable : find_expendable_files less system ≡ file_a ∷ file_b ∷ []
unfolding find_expendable_files insert erase eliminate_links eliminate_processes
    eliminate_open_files collect_entries collect_dirs
expendable = refl

system-Frees : Frees system
system-Frees = record { grows = λ gone f. omega (arith, length-append gone (f ∷ [])) }

-- Deleting both files would free twenty bytes, and fifteen are asked for.
gives_up : make_free_space_on_cache less system 15 ≡ (file_a ∷ [], negsuc 0)
unfolding make_free_space_on_cache free_from delete_loop find_expendable_files insert erase
    eliminate_links eliminate_processes eliminate_open_files collect_entries collect_dirs
gives_up = refl

-- Ten bytes are free after the first file.
deletes_all : make_free_space_on_cache less system 5 ≡ (file_a ∷ file_b ∷ [], pos 0)
unfolding make_free_space_on_cache free_from delete_loop find_expendable_files insert erase
    eliminate_links eliminate_processes eliminate_open_files collect_entries collect_dirs
deletes_all = refl

make_free_space_on_cache-one_or_all_example :
    (make_free_space_on_cache less system 15).0
    ≡ (if ltb 10 15 then file_a ∷ [] else file_a ∷ file_b ∷ [])
make_free_space_on_cache-one_or_all_example =
    make_free_space_on_cache-one_or_all less system 15 file_a (file_b ∷ []) system-Frees expendable
      (omega arith)

make_free_space_on_cache-succeeds_iff_example :
    ((make_free_space_on_cache less system 15).1 ≡ pos 0)
    ↔ (15 ≤ system.free_space (make_free_space_on_cache less system 15).0)
make_free_space_on_cache-succeeds_iff_example = make_free_space_on_cache-succeeds_iff less system 15

a-deleted : In file_a (make_free_space_on_cache less system 15).0
unfolding make_free_space_on_cache free_from delete_loop find_expendable_files insert erase
    eliminate_links eliminate_processes eliminate_open_files collect_entries collect_dirs
a-deleted = here

make_free_space_on_cache-IsDeletable_example : IsDeletable less system file_a
make_free_space_on_cache-IsDeletable_example =
    make_free_space_on_cache-IsDeletable less system 15 file_a a-deleted
