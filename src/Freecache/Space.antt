-- ===== src/Freecache/Space.antt =====
-- applypatch/freecache.cpp: what `MakeFreeSpaceOnCache` deletes, and what it returns.
use recovery.Base.{
  ℕ, ◌≡◌, true, false, not, ◌||◌, ◌++◌, List, [], ◌∷◌, Text, codes, text_eq, starts_with,
  if◌then◌else◌, Option, none, some, refl, sym, Bool-cases, inl, inr, ◌⊎◌, ltb, leb,
}
use mathlib.Core.Path.{subst}
use recovery.Freecache.Defs.{
  DirEntry, Process, System, Less, cache_temp_source, insert, eliminate_processes,
  eliminate_open_files, delete_loop, collect_entries, collect_dirs, expendable_dirs, get_or_empty,
  find_expendable_files, make_free_space_on_cache, free_from,
}
use recovery.Freecache.Expendable.{
  In, here, there, In-nil, In-cons, insert-In, OpenIn, eliminate_processes-In,
}

-- A regular file in one of the directories, and not the copy of a source that an update may need.
pub record Listed (system : System) (file : Text) : Type 0 where
  pub dir : Text
  pub of_dirs : In dir expendable_dirs
  pub entries : List DirEntry
  pub opened : system.opendir dir ≡ some entries
  pub entry : DirEntry
  pub listed : In entry entries
  pub is_regular : entry.is_regular ≡ true
  pub path : file ≡ dir ++ codes "/" ++ entry.name
  pub not_temp : text_eq file cache_temp_source ≡ false

module _ (less : Less) (system : System) where
  AllListed : List Text → Type 0
  AllListed files = (f : Text) → In f files → Listed system f

  abbrev path_of : Text → DirEntry → Text
  path_of dir entry = dir ++ codes "/" ++ entry.name

  abbrev kept : Text → DirEntry → List Text → List Text
  kept dir entry files =
      if text_eq (path_of dir entry) cache_temp_source || not entry.is_regular
      then files
      else insert less (path_of dir entry) files

  kept-AllListed :
      (dir : Text) (entry : DirEntry) (files : List Text)
      → AllListed files
      → (text_eq (path_of dir entry) cache_temp_source ≡ false
          → entry.is_regular ≡ true
          → Listed system (path_of dir entry))
      → AllListed (kept dir entry files)
  unfolding AllListed
  kept-AllListed dir entry files h new f i =
      elim (Bool-cases (text_eq (path_of dir entry) cache_temp_source)) [
        | inl temp ↦ h f (rw temp at (i))
        | inr other ↦ elim (Bool-cases entry.is_regular) [
          | inr special ↦ h f (rw (other, special) at (i))
          | inl regular ↦
              elim (insert-In less (path_of dir entry) f files (rw (other, regular) at (i))) [
                | inl e ↦ subst (Listed system) (sym e) (new other regular)
                | inr old ↦ h f old
              ]
        ]
      ]

  collect_entries-AllListed :
      (dir : Text) (all entries : List DirEntry) (files : List Text)
      → In dir expendable_dirs
      → system.opendir dir ≡ some all
      → ((e : DirEntry) → In e entries → In e all)
      → AllListed files
      → AllListed (collect_entries less dir entries files)
  unfolding collect_entries
  collect_entries-AllListed dir all [] files d o part h = h
  collect_entries-AllListed dir all (entry ∷ entries) files d o part h =
      collect_entries-AllListed dir all entries (kept dir entry files) d o (λ e i. part e (there i))
        (kept-AllListed dir entry files h (λ other regular. record {
          dir = dir;
          of_dirs = d;
          entries = all;
          opened = o;
          entry = entry;
          listed = part entry here;
          is_regular = regular;
          path = refl;
          not_temp = other;
        }))

  collect_dirs-AllListed :
      (dirs : List Text) (files : List Text)
      → ((d : Text) → In d dirs → In d expendable_dirs)
      → AllListed files
      → AllListed (collect_dirs less system dirs files)
  unfolding collect_dirs
  collect_dirs-AllListed [] files part h = h
  collect_dirs-AllListed (dir ∷ dirs) files part h =
      collect_dirs-AllListed dirs _ (λ d i. part d (there i)) (of_entries (system.opendir dir) refl)
    where
      of_entries :
          (found : Option (List DirEntry))
          → system.opendir dir ≡ found
          → AllListed
              (elim found [ none ↦ files | some entries ↦ collect_entries less dir entries files ])
      of_entries none e = h
      of_entries (some entries) e =
          collect_entries-AllListed dir entries entries files (part dir here) e (λ x i. i) h

  -- Where /proc cannot be read, nothing is deletable.
  abbrev pub Closed : Option (List Process) → Text → Type 0
  Closed none f = ⊥
  Closed (some processes) f = ¬ OpenIn processes f

  abbrev pub IsDeletable : Text → Type 0
  IsDeletable f = Listed system f × Closed system.proc f

  on_cache :
      (dir rest : Text)
      → In dir expendable_dirs
      → starts_with (codes "/cache/") (dir ++ codes "/" ++ rest) ≡ true
  on_cache dir rest here = refl
  on_cache dir rest (there here) = refl
  on_cache dir rest (there (there i)) = absurd (In-nil dir i)

  find_expendable_files-IsDeletable :
      (f : Text) → In f (find_expendable_files less system) → IsDeletable f
  unfolding find_expendable_files eliminate_open_files AllListed
  find_expendable_files-IsDeletable f i =
      go system.proc refl i
        (collect_dirs-AllListed expendable_dirs [] (λ d j. j) (λ g j. absurd (In-nil g j)))
    where
      go :
          (found : Option (List Process))
          → system.proc ≡ found
          → In f (
              get_or_empty (elim found [
                | none ↦ none
                | some processes ↦
                    some
                      (eliminate_processes processes (collect_dirs less system expendable_dirs []))
              ]))
          → ((g : Text) → In g (collect_dirs less system expendable_dirs []) → Listed system g)
          → IsDeletable f
      go none e j all = absurd (In-nil f j)
      go (some processes) e j all =
          let r = eliminate_processes-In processes f _ j in
          let l = all f r.0 in (l, rw e (r.1 (rw l.path (on_cache l.dir l.entry.name l.of_dirs))))

  In-append : (f : Text) (xs ys : List Text) → In f (xs ++ ys) → In f xs ⊎ In f ys
  In-append f [] ys i = inr i
  In-append f (x ∷ xs) ys here = inl here
  In-append f (x ∷ xs) ys (there i) = elim (In-append f xs ys i) [
    | inl j ↦ inl (there j)
    | inr j ↦ inr j
  ]

  delete_loop-In :
      (n : ℕ) (f : Text) (deleted files : List Text) (free_now : ℕ)
      → In f (delete_loop system n deleted files free_now).0
      → In f deleted ⊎ In f files
  unfolding delete_loop
  delete_loop-In n f deleted [] free_now i = inl i
  delete_loop-In n f deleted (g ∷ files) free_now i =
      elim (Bool-cases (ltb (system.free_space (deleted ++ g ∷ [])) n)) [
        | inl stops ↦ at_end (In-append f deleted (g ∷ []) (rw stops at (i)))
        | inr goes ↦ later (delete_loop-In n f (deleted ++ g ∷ []) files _ (rw goes at (i)))
      ]
    where
      at_end : In f deleted ⊎ In f (g ∷ []) → In f deleted ⊎ In f (g ∷ files)
      at_end (inl i) = inl i
      at_end (inr i) = elim (In-cons f g [] i) [
        | inl e ↦ inr (subst (λ (x : Text). In f (x ∷ files)) e here)
        | inr j ↦ absurd (In-nil f j)
      ]

      later : In f (deleted ++ g ∷ []) ⊎ In f files → In f deleted ⊎ In f (g ∷ files)
      later (inl i) = at_end (In-append f deleted (g ∷ []) i)
      later (inr i) = inr (there i)

  free_from-In :
      (n : ℕ) (f : Text) (files : List Text) → In f (free_from system n files).0 → In f files
  unfolding free_from
  free_from-In n f [] i = i
  free_from-In n f (g ∷ files) i =
      elim (delete_loop-In n f [] (g ∷ files) (system.free_space []) i) [
        | inl none_yet ↦ absurd (In-nil f none_yet)
        | inr listed ↦ listed
      ]

  -- Every file that is deleted is a regular file of one of the two directories, not the saved source of
  -- an update, and open in no process whose descriptors can be read; /proc itself could be read.
  pub make_free_space_on_cache-IsDeletable :
      (bytes_needed : ℕ) (f : Text)
      → In f (make_free_space_on_cache less system bytes_needed).0
      → IsDeletable f
  unfolding make_free_space_on_cache
  make_free_space_on_cache-IsDeletable n f i = elim (Bool-cases (leb n (system.free_space []))) [
    | inl enough ↦ absurd (In-nil f (rw enough at (i)))
    | inr short ↦
        find_expendable_files-IsDeletable f
          (free_from-In n f (find_expendable_files less system) (rw short at (i)))
  ]
