-- ===== src/Applypatch/Imgpatch.antt =====
-- applypatch/imgpatch.cpp: image patches, which are lists of chunks. What zlib and libbz2 make of some
-- bytes are parameters, and so is the sink. `int` has 32 bits, `size_t` 64, and zlib's counts have 32.
use recovery.Base.{
  ℕ, suc, zero, ◌+◌, ◌-◌, ◌%◌, ◌^◌, ◌==◌, ltb, leb, Bool, not, ◌++◌, List, [], ◌∷◌, length, take,
  drop, replicate, Text, codes, text_eq, Option, none, some, if◌then◌else◌,
}
use recovery.Applypatch.Utils.{read4, read8}
use recovery.Applypatch.Bspatch.{
  Patched, patched, corrupt, faulty, hanging, running, Bzip2, apply_bsdiff_patch_mem,
}

abbrev pub chunk_normal : ℕ
chunk_normal = 0

abbrev pub chunk_deflate : ℕ
chunk_deflate = 2

abbrev pub chunk_raw : ℕ
chunk_raw = 3

-- Raw inflation of all that is given, if it reaches the stream's end; and what the calls of `deflate`
-- hand out in turn, for the room in the buffer, the five settings and the data.
pub record Zlib : Type 0 where
  pub inflate : Text → Option Text
  pub deflate : ℕ → List ℕ → Text → Option (List Text)

-- How `ApplyImagePatch` stands: it goes on, it returns -1, its behaviour is undefined, or it never
-- returns; with the sink's state
-- and the bytes that the digest is updated with.
pub data Progress (S : Type 0) : Type 0 where
  going : S → List ℕ → Progress S
  error : S → List ℕ → Progress S
  undefined : S → List ℕ → Progress S
  never : S → List ℕ → Progress S

module _ {S : Type 0} (sink : Text → S → ℕ × S) where
  -- `ApplyBSDiffPatch` into the sink: a short write leaves the digest alone.
  unfoldable pub sink_patched : S → List ℕ → Patched → Progress S
  sink_patched s digested (patched new_data) =
      let (taken, t) = sink new_data s in
      if ltb taken (length new_data) then error t digested else going t (digested ++ new_data)
  sink_patched s digested corrupt = error s digested
  sink_patched s digested faulty = undefined s digested
  sink_patched s digested hanging = never s digested
  sink_patched s digested running = undefined s digested

  -- A call whose result is not looked at.
  abbrev pub ignore_error : Progress S → Progress S
  ignore_error (going s digested) = going s digested
  ignore_error (error s digested) = going s digested
  ignore_error (undefined s digested) = undefined s digested
  ignore_error (never s digested) = never s digested

  -- The loop over what `deflate` hands out.
  unfoldable pub sink_deflated : S → List ℕ → List Text → Progress S
  sink_deflated s digested [] = going s digested
  sink_deflated s digested (part ∷ parts) =
      let (taken, t) = sink part s in
      let rest = sink_deflated t (digested ++ part) parts in
      if taken == length part then rest else error t digested

  unfoldable pub sink_raw : S → List ℕ → Text → Progress S
  sink_raw s digested raw =
      let (taken, t) = sink raw s in
      if taken == length raw then going t (digested ++ raw) else error t (digested ++ raw)

  module _ (zlib : Zlib) (bzip2 : Bzip2) (old_data patch : Text) where
    -- The test of a source range, whose sum may wrap round, and the range.
    unfoldable pub source_fits : ℕ → ℕ → Bool
    source_fits start len = leb ((start + len) % 2 ^ 64) (length old_data)

    unfoldable pub source_inside : ℕ → ℕ → Bool
    source_inside start len = leb (start + len) (length old_data)

    -- A chunk of type CHUNK_NORMAL with the header at pos.
    unfoldable pub normal_chunk : ℕ → S → List ℕ → Progress S
    normal_chunk pos s digested =
        let header = drop pos patch in
        let start = read8 header in
        let len = read8 (drop 8 header) in
        if ltb (length patch) (pos + 24)
        then error s digested
        else if not (source_fits start len)
        then error s digested
        else if not (source_inside start len)
        then undefined s digested
        else ignore_error (
            sink_patched s digested (
              apply_bsdiff_patch_mem bzip2 (take len (drop start old_data)) patch
                (read8 (drop 16 header))))

    -- A chunk of type CHUNK_RAW, where the data's length stands at pos. A negative length passes the
    -- test if it points into the patch.
    unfoldable pub raw_chunk : ℕ → S → List ℕ → Progress S
    raw_chunk pos s digested =
        let len = read4 (drop pos patch) in
        if ltb (length patch) (pos + 4)
        then error s digested
        else if leb (2 ^ 31) len
        then if leb (2 ^ 32 - len) (pos + 4) then undefined s digested else error s digested
        else if ltb (length patch) (pos + 4 + len)
        then error s digested
        else sink_raw s digested (take len (drop (pos + 4) patch))

    -- The source of a deflate chunk, expanded: the bonus data are its end.
    abbrev pub expand_to : ℕ → Text → Option Text → Option Text
    expand_to expanded_len bonus none = none
    expand_to expanded_len bonus (some out) =
        if ltb (expanded_len % 2 ^ 32) (length out)
        then none
        else if not (expanded_len % 2 ^ 32 - length out == length bonus)
        then none
        else some (out ++ (replicate (expanded_len - length out - length bonus) 0 ++ bonus))

    unfoldable pub expanded : ℕ → ℕ → ℕ → Text → Option Text
    expanded start len expanded_len bonus =
        if expanded_len == 0
        then some []
        else expand_to expanded_len bonus (zlib.inflate (take (len % 2 ^ 32) (drop start old_data)))

    abbrev pub sink_all : S → List ℕ → Option (List Text) → Progress S
    sink_all s digested none = error s digested
    sink_all s digested (some parts) = sink_deflated s digested parts

    -- The target of a deflate chunk is compressed again.
    abbrev pub deflate_target : ℕ → List ℕ → ℕ → S → List ℕ → Patched → Progress S
    deflate_target room settings target_len s digested (patched target) =
        if not (length target == target_len)
        then error s digested
        else sink_all s digested (zlib.deflate room settings (take (length target % 2 ^ 32) target))
    deflate_target room settings target_len s digested corrupt = error s digested
    deflate_target room settings target_len s digested faulty = undefined s digested
    deflate_target room settings target_len s digested hanging = never s digested
    deflate_target room settings target_len s digested running = undefined s digested

    abbrev pub patch_expanded : ℕ → List ℕ → ℕ → S → List ℕ → Option Text → Progress S
    patch_expanded offset settings target_len s digested none = error s digested
    patch_expanded offset settings target_len s digested (some source) =
        deflate_target (if ltb (length source) 32768 then 32768 else length source) settings
          target_len s digested (apply_bsdiff_patch_mem bzip2 source patch offset)

    -- A chunk of type CHUNK_DEFLATE with the header at pos.
    unfoldable pub deflate_chunk : Text → ℕ → S → List ℕ → Progress S
    deflate_chunk bonus pos s digested =
        let header = drop pos patch in
        let start = read8 header in
        let len = read8 (drop 8 header) in
        let settings =
          read4 (drop 40 header)
          ∷ read4 (drop 44 header)
          ∷ read4 (drop 48 header)
          ∷ read4 (drop 52 header)
          ∷ read4 (drop 56 header)
          ∷ [] in
        if ltb (length patch) (pos + 60)
        then error s digested
        else if not (source_fits start len)
        then error s digested
        else if not (source_inside start len)
        then undefined s digested
        else patch_expanded (read8 (drop 16 header)) settings (read8 (drop 32 header)) s digested
            (expanded start len (read8 (drop 24 header)) bonus)

    -- One round of the loop, with the place behind the chunk.
    unfoldable pub image_chunk : Text → ℕ → S → List ℕ → ℕ × Progress S
    image_chunk bonus pos s digested =
        let type = read4 (drop pos patch) in
        if ltb (length patch) (pos + 4)
        then (pos, error s digested)
        else if type == chunk_normal
        then (pos + 4 + 24, normal_chunk (pos + 4) s digested)
        else if type == chunk_raw
        then (pos + 4 + 4 + read4 (drop (pos + 4) patch), raw_chunk (pos + 4) s digested)
        else if type == chunk_deflate
        then (pos + 4 + 60, deflate_chunk bonus (pos + 4) s digested)
        else (pos + 4, error s digested)

    abbrev pub go_on : (S → List ℕ → Progress S) → Progress S → Progress S
    go_on next (going s digested) = next s digested
    go_on next (error s digested) = error s digested
    go_on next (undefined s digested) = undefined s digested
    go_on next (never s digested) = never s digested

    -- The loop over the chunks from the one with index i on; the bonus data are for the second one.
    unfoldable pub image_chunks : Text → ℕ → ℕ → ℕ → S → List ℕ → Progress S
    image_chunks bonus i zero pos s digested = going s digested
    image_chunks bonus i (suc left) pos s digested =
        let (next, progress) = image_chunk (if i == 1 then bonus else []) pos s digested in
        go_on (image_chunks bonus (i + 1) left next) progress

    -- `ApplyImagePatch`; a number of chunks that is negative is none.
    unfoldable pub apply_image_patch : Text → S → Progress S
    apply_image_patch bonus s =
        let num_chunks = read4 (drop 8 patch) in
        if ltb (length patch) 12
        then error s []
        else if not (text_eq (take 8 patch) (codes "IMGDIFF2"))
        then error s []
        else image_chunks bonus 0 (if leb (2 ^ 31) num_chunks then 0 else num_chunks) 12 s []
