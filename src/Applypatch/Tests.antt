-- ===== src/Applypatch/Tests.antt =====
-- applypatch/: numbers of the patch format, written and read.
use recovery.Base.{
  ℕ, ◌+◌, ◌^◌, ◌≡◌, refl, true, false, ◌++◌, List, [], ◌∷◌, ◌<◌, arith, codes, drop, length, ◌<◌,
}
use recovery.Base.Int.{pos, negsuc, pos_part, ◌+ℤ◌}
use recovery.Applypatch.Bspatch.{
  patched, hanging, Bzip2, stalls_in, limit, offtin, magnitude, can_fill, filled, add_old, old_byte,
  patch_loop, apply_bsdiff_patch_mem,
}
use recovery.Applypatch.Rebuilt.{Section, control_of, diff_of, subtract_old, Encodable}
use recovery.Applypatch.Roundtrip.{Codec, patch_file, apply_bsdiff_patch_mem-patch_file}
use recovery.Applypatch.Ends.{Ends, any_stalls, apply_bsdiff_patch_mem-Ends}
use recovery.Applypatch.Utils.{write4, write8, read2, read4, read8, read-write}

read-write_example :
    (read4 (write4 4000000000 ++ (7 ∷ [])) ≡ 4000000000)
    × (read8 (write8 (2 ^ 40 + 5) ++ (7 ∷ [])) ≡ 2 ^ 40 + 5)
read-write_example = read-write 4000000000 (2 ^ 40 + 5) (7 ∷ []) (omega arith) (omega arith)

little-endian : read2 (52 ∷ 18 ∷ []) ≡ 4660
unfolding read2
little-endian = refl

abbrev eight : ℕ → List ℕ
eight n = n ∷ 0 ∷ 0 ∷ 0 ∷ 0 ∷ 0 ∷ 0 ∷ 0 ∷ []

-- Two bytes that differ by one from the old file's, and two new ones.
abbrev patch : List ℕ
patch =
    codes "BSDIFF40"
    ++ (eight 24
        ++ (eight 2 ++ (eight 4 ++ (eight 2 ++ (eight 2 ++ (eight 0 ++ (1 ∷ 1 ∷ 9 ∷ 9 ∷ [])))))))

-- Streams that stand for themselves, and such that stall behind their end.
abbrev unpack : Bzip2
unpack = record { decompress = λ t. t; stalls = λ t. false }

abbrev cut_off : Bzip2
cut_off = record { decompress = λ t. t; stalls = λ t. true }

-- The new file is longer than what the extra block gives.
abbrev short_patch : List ℕ
short_patch =
    codes "BSDIFF40"
    ++ (eight 24
        ++ (eight 2 ++ (eight 4 ++ (eight 2 ++ (eight 2 ++ (eight 0 ++ (1 ∷ 1 ∷ 9 ∷ [])))))))

cut_off-hangs : apply_bsdiff_patch_mem cut_off (5 ∷ 255 ∷ 7 ∷ []) short_patch 0 ≡ hanging
unfolding apply_bsdiff_patch_mem patch_loop offtin magnitude can_fill filled add_old old_byte ◌+ℤ◌
    stalls_in
cut_off-hangs = refl

patch-applies :
    apply_bsdiff_patch_mem unpack (5 ∷ 255 ∷ 7 ∷ []) patch 0 ≡ patched (6 ∷ 0 ∷ 9 ∷ 9 ∷ [])
unfolding apply_bsdiff_patch_mem patch_loop offtin magnitude can_fill filled add_old old_byte ◌+ℤ◌
patch-applies = refl

apply_bsdiff_patch_mem-Ends_example :
    Ends
      (pos_part (offtin (drop 24 (drop 0 patch))))
      (any_stalls (
        stalls_in unpack
          (pos_part (offtin (drop 8 (drop 0 patch))))
          (pos_part (offtin (drop 16 (drop 0 patch))))
          (drop 32 (drop 0 patch))))
      (apply_bsdiff_patch_mem unpack (5 ∷ 255 ∷ 7 ∷ []) patch 0)
apply_bsdiff_patch_mem-Ends_example = apply_bsdiff_patch_mem-Ends unpack (5 ∷ 255 ∷ 7 ∷ []) patch 0

abbrev codec : Codec
codec = record { compress = λ t. t; bzip2 = unpack; unpacks = λ t. refl }

-- The new file 6 0 9 9 8 over the old file 5 255 7, in two sections with a step back in between.
abbrev two_sections : List Section
two_sections =
    record { part = 6 ∷ 0 ∷ []; extra = 9 ∷ 9 ∷ []; seek = negsuc 1 }
    ∷ record { part = 8 ∷ []; extra = []; seek = pos 0 }
    ∷ []

two_sections-Encodable : Encodable two_sections
two_sections-Encodable =
    ((omega arith, (omega arith, tt)), omega arith, ((omega arith, tt), omega arith, tt))

control-small : length (control_of two_sections) < limit
unfolding write8
control-small = omega arith

diff-small : length (diff_of (5 ∷ 255 ∷ 7 ∷ []) (pos 0) two_sections) < limit
unfolding subtract_old
diff-small = omega arith

apply_bsdiff_patch_mem-patch_file_example :
    apply_bsdiff_patch_mem unpack
      (5 ∷ 255 ∷ 7 ∷ [])
      (patch_file codec (5 ∷ 255 ∷ 7 ∷ []) two_sections)
      0
    ≡ patched (6 ∷ 0 ∷ 9 ∷ 9 ∷ 8 ∷ [])
apply_bsdiff_patch_mem-patch_file_example =
    apply_bsdiff_patch_mem-patch_file codec (5 ∷ 255 ∷ 7 ∷ []) two_sections two_sections-Encodable
      control-small diff-small (omega arith)
