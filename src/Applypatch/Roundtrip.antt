-- ===== src/Applypatch/Roundtrip.antt =====
-- applypatch/bspatch.cpp: a whole patch file that was made of two files gives the second from the first.
use recovery.Base.{
  ltb, ◌+◌, Bool, false, if◌then◌else◌, ℕ, suc, ◌^◌, ◌≤◌, ◌<◌, ◌≡◌, refl, ap, ◌∙◌, ◌++◌, List, [],
  ◌∷◌, length, drop, length-append, arith, take-append_of_eq, drop-append_of_eq, codes,
}
use recovery.Base.Int.{pos}
use recovery.Applypatch.Bspatch.{
  Patched, patched, faulty, offtin, Bzip2, Stalls, stalls_in, limit, patch_loop,
  apply_bsdiff_patch_mem,
}
use recovery.Applypatch.Control.{
  offtout, offtin-offtout, triple, drop_one, drop_two, drop_three, length-triple, length-offtout,
}
use recovery.Applypatch.Rebuilt.{
  Section, new_file, control_of, diff_of, extra_of, Encodable, patch_loop-sections,
}

length-control_of : (sections : List Section) → length sections ≤ length (control_of sections)
length-control_of [] = omega arith
length-control_of (s ∷ sections) = omega (
  arith,
  length-control_of sections,
  length-append (offtout (pos (length s.part)))
      (offtout (pos (length s.extra)) ++ (offtout s.seek ++ control_of sections)),
  length-append (offtout (pos (length s.extra))) (offtout s.seek ++ control_of sections),
  length-append (offtout s.seek) (control_of sections),
  length-offtout s.seek,
)

within :
    (a b c : Bool) (r : Patched)
    → a ≡ false
    → b ≡ false
    → c ≡ false
    → (if a then faulty else if b then faulty else if c then faulty else r) ≡ r
within a b c r h k l = rw (h, k, l) refl

-- What is documented of a compressor and libbz2: unpacking gives back what was packed.
pub record Codec : Type 0 where
  pub compress : List ℕ → List ℕ
  pub bzip2 : Bzip2
  pub unpacks : (t : List ℕ) → bzip2.decompress (compress t) ≡ t

module _ (codec : Codec) (old_data : List ℕ) (sections : List Section) where
  abbrev pub packed_control : List ℕ
  packed_control = codec.compress (control_of sections)

  abbrev pub packed_diff : List ℕ
  packed_diff = codec.compress (diff_of old_data (pos 0) sections)

  abbrev pub packed_extra : List ℕ
  packed_extra = codec.compress (extra_of sections)

  abbrev blocks : List ℕ
  blocks = packed_control ++ (packed_diff ++ packed_extra)

  -- The layout that the comment of `ApplyBSDiffPatchMem` describes.
  abbrev pub patch_file : List ℕ
  patch_file =
      codes "BSDIFF40"
      ++ triple (pos (length packed_control)) (pos (length packed_diff))
          (pos (length (new_file sections))) blocks

  -- What is asked of the streams does not go to where they could stall.
  abbrev packed_stalls : Stalls
  packed_stalls = stalls_in codec.bzip2 (length packed_control) (length packed_diff) blocks

  -- What the code reads out of the patch file.
  unpacked-eq :
      length packed_control < limit
      → length packed_diff < limit
      → length (new_file sections) < limit
      → apply_bsdiff_patch_mem codec.bzip2 old_data patch_file 0
        ≡ patch_loop packed_stalls
            (suc (length (control_of sections)))
            (length (new_file sections))
            old_data
            (control_of sections)
            (diff_of old_data (pos 0) sections)
            (extra_of sections)
            (pos 0)
            []
  unfolding apply_bsdiff_patch_mem
  unpacked-eq hc hd hn =
      let a = pos (length packed_control) in
      let b = pos (length packed_diff) in
      let n = pos (length (new_file sections)) in
      let read_a : offtin (triple a b n blocks) ≡ a = offtin-offtout a _ hc in
      let read_b : offtin (drop 8 (triple a b n blocks)) ≡ b =
        ap offtin (drop_one a b n blocks) ∙ offtin-offtout b _ hd in
      let read_n : offtin (drop 16 (triple a b n blocks)) ≡ n =
        ap offtin (drop_two a b n blocks) ∙ offtin-offtout n _ hn in
      let whole : ltb (length patch_file) 32 ≡ false = ground (arith, length-triple a b n blocks) in
      let front : ltb (length patch_file) 8 ≡ false = ground (arith, length-triple a b n blocks) in
      let room : ltb (length blocks) (length packed_control + length packed_diff) ≡ false = ground (
        arith,
        length-append packed_control (packed_diff ++ packed_extra),
        length-append packed_diff packed_extra,
      ) in
      rw
        (
          read_a,
          read_b,
          read_n,
          drop_three a b n blocks,
          take-append_of_eq (length packed_control) packed_control (packed_diff ++ packed_extra)
              refl,
          drop-append_of_eq (length packed_control) packed_control (packed_diff ++ packed_extra)
              refl,
          take-append_of_eq (length packed_diff) packed_diff packed_extra refl,
          drop-append_of_eq (length packed_diff) packed_diff packed_extra refl,
          codec.unpacks (control_of sections),
          codec.unpacks (diff_of old_data (pos 0) sections),
          codec.unpacks (extra_of sections),
        )
        (within _ _ _ _ front whole room)

  -- However a new file is cut into sections, of bytes stored by their difference to the old file's and
  -- of bytes stored as they are, with any moves in the old file in between: if the new file has less
  -- than 2^31 bytes and the lengths and moves fit into the format, applying the patch file that stores
  -- the sections to the old file gives the new file. The old file's content and length are arbitrary.
  pub apply_bsdiff_patch_mem-patch_file :
      Encodable sections
      → length packed_control < limit
      → length packed_diff < limit
      → length (new_file sections) < 2 ^ 31
      → apply_bsdiff_patch_mem codec.bzip2 old_data patch_file 0 ≡ patched (new_file sections)
  apply_bsdiff_patch_mem-patch_file h hc hd small =
      unpacked-eq hc hd (omega arith)
      ∙ patch_loop-sections packed_stalls old_data sections (suc (length (control_of sections)))
          (length (new_file sections)) (pos 0) [] h small (omega arith)
          (omega (arith, length-control_of sections))
