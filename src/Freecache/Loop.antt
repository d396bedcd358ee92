-- ===== src/Freecache/Loop.antt =====
-- applypatch/freecache.cpp: the loop of `MakeFreeSpaceOnCache`.
use recovery.Base.{
  ℕ, ◌≡◌, ◌≤◌, ◌<◌, false, ◌++◌, List, [], ◌∷◌, Text, ◌↔◌, if◌then◌else◌, refl, sym, ◌∙◌, arith,
  Bool-cases, inl, inr, ltb, leb, ltb-false, leb→le,
}
use mathlib.Core.List.{append-nil, append_assoc}
use recovery.Base.Int.{pos, negsuc}
use recovery.Freecache.Defs.{
  System, Less, delete_loop, find_expendable_files, free_from, make_free_space_on_cache,
}

delete_loop-free_space :
    (system : System) (n : ℕ) (deleted files : List Text) (free_now : ℕ)
    → free_now ≡ system.free_space deleted
    → (delete_loop system n deleted files free_now).1
      ≡ system.free_space (delete_loop system n deleted files free_now).0
unfolding delete_loop
delete_loop-free_space system n deleted [] free_now e = e
delete_loop-free_space system n deleted (f ∷ files) free_now e =
    elim (Bool-cases (ltb (system.free_space (deleted ++ f ∷ [])) n)) [
      | inl stops ↦ rw stops refl
      | inr goes ↦ rw goes (delete_loop-free_space system n (deleted ++ f ∷ []) files _ refl)
    ]

result_iff :
    (n free_now : ℕ) → ((if leb n free_now then pos 0 else negsuc 0) ≡ pos 0) ↔ (n ≤ free_now)
result_iff n free_now = elim (Bool-cases (leb n free_now)) [
  | inl enough ↦ rw enough (λ e. leb→le n free_now enough, λ h. refl)
  | inr short ↦ rw short (λ e. absurd (cc), λ h. absurd (ground arith))
]

free_from_iff :
    (system : System) (n : ℕ) (files : List Text)
    → system.free_space [] < n
    → ((free_from system n files).1 ≡ pos 0) ↔ (n ≤ system.free_space (free_from system n files).0)
unfolding free_from
free_from_iff system n [] short = (λ e. absurd (cc), λ h. absurd (omega arith))
free_from_iff system n (f ∷ files) short =
    rw (← delete_loop-free_space system n [] (f ∷ files) (system.free_space []) refl)
      (result_iff n (delete_loop system n [] (f ∷ files) (system.free_space [])).1)

-- The result is 0 exactly if the space that is free at the end, with the deleted files gone, is enough.
pub make_free_space_on_cache-succeeds_iff :
    (less : Less) (system : System) (bytes_needed : ℕ)
    → ((make_free_space_on_cache less system bytes_needed).1 ≡ pos 0)
      ↔ (bytes_needed ≤ system.free_space (make_free_space_on_cache less system bytes_needed).0)
unfolding make_free_space_on_cache
make_free_space_on_cache-succeeds_iff less system n =
    elim (Bool-cases (leb n (system.free_space []))) [
      | inl enough ↦ rw enough (λ e. leb→le n (system.free_space []) enough, λ h. refl)
      | inr short ↦
          rw short (free_from_iff system n (find_expendable_files less system) (ground arith))
    ]

-- A deleted file takes no space.
pub record Frees (system : System) : Type 0 where
  pub grows :
      (gone : List Text) (f : Text) → system.free_space gone ≤ system.free_space (gone ++ f ∷ [])

delete_loop-all :
    (system : System) (n : ℕ) (deleted files : List Text) (free_now : ℕ)
    → Frees system
    → free_now ≡ system.free_space deleted
    → n ≤ free_now
    → (delete_loop system n deleted files free_now).0 ≡ deleted ++ files
unfolding delete_loop
delete_loop-all system n deleted [] free_now frees e h = sym (append-nil deleted)
delete_loop-all system n deleted (f ∷ files) free_now frees e h =
    let more = frees.grows deleted f in
    let goes : ltb (system.free_space (deleted ++ f ∷ [])) n ≡ false = ground arith in
    rw goes (
      delete_loop-all system n (deleted ++ f ∷ []) files _ frees refl (omega arith)
      ∙ append_assoc deleted (f ∷ []) files)

-- Where deletion frees space and too little is free at first: if the first deletable file leaves too
-- little free, no other file is deleted, and if it leaves enough, all the others are deleted too.
pub make_free_space_on_cache-one_or_all :
    (less : Less) (system : System) (bytes_needed : ℕ) (file : Text) (files : List Text)
    → Frees system
    → find_expendable_files less system ≡ file ∷ files
    → system.free_space [] < bytes_needed
    → (make_free_space_on_cache less system bytes_needed).0
      ≡ (if ltb (system.free_space (file ∷ [])) bytes_needed then file ∷ [] else file ∷ files)
unfolding make_free_space_on_cache free_from delete_loop
make_free_space_on_cache-one_or_all less system n file files frees found short =
    let starts : leb n (system.free_space []) ≡ false = ground arith in
    rw (starts, found)
      (elim (Bool-cases (ltb (system.free_space (file ∷ [])) n)) [
        | inl stops ↦ rw stops refl
        | inr goes ↦ rw goes (
            delete_loop-all system n (file ∷ []) files _ frees refl
              (ltb-false (system.free_space (file ∷ [])) n goes))
      ])
