-- ===== src/Applypatch/Bspatch.antt =====
-- applypatch/bspatch.cpp: binary patches. What libbz2 unpacks from some bytes is a parameter. `off_t` and
-- `ssize_t` have 64 bits; a signed sum that they cannot hold is undefined in C++, as is a read behind
-- the data, and is an outcome of its own here. The position in the old file is not bounded.
use recovery.Base.{
  ℕ, suc, zero, ◌+◌, ◌-◌, ◌*◌, ◌/◌, ◌%◌, ◌^◌, ◌==◌, ltb, leb, Bool, true, false, not, ◌||◌, ◌++◌,
  List, [], ◌∷◌, length, take, drop, replicate, get_or, codes, text_eq, Option, none, some,
  if◌then◌else◌,
}
use recovery.Base.Int.{ℤ, pos, negsuc, pos_part, ◌+ℤ◌}
use recovery.Applypatch.Utils.{byte}

abbrev pub negate : ℕ → ℤ
negate zero = pos zero
negate (suc n) = negsuc n

-- `offtin`: seven bits and seven bytes of magnitude, and a sign.
unfoldable pub magnitude : List ℕ → ℕ
magnitude buf =
    ((((((byte buf 7 % 128 * 256 + byte buf 6) * 256 + byte buf 5) * 256 + byte buf 4) * 256
                + byte buf 3)
              * 256
            + byte buf 2)
          * 256
        + byte buf 1)
      * 256
    + byte buf 0

unfoldable pub offtin : List ℕ → ℤ
offtin buf = if byte buf 7 / 128 % 2 == 1 then negate (magnitude buf) else pos (magnitude buf)

-- libbz2: the bytes that `BZ2_bzDecompress` hands out in all, up to the stream's end, the first error or
-- the end of what is given; and whether it answers BZ_OK with no progress from then on, as it does for
-- a stream that is cut off, and not with an error.
pub record Bzip2 : Type 0 where
  pub decompress : List ℕ → List ℕ
  pub stalls : List ℕ → Bool

-- Which of the three streams stall.
pub record Stalls : Type 0 where
  pub control : Bool
  pub diff : Bool
  pub extra : Bool

-- How applying a patch ends. `faulty` is undefined behaviour, a signed sum that does not fit or a read
-- behind the patch's data, `hanging` is a call of `FillBuffer` that never returns, and `running` is a
-- loop that was cut off.
pub data Patched : Type 0 where
  patched : List ℕ → Patched
  corrupt : Patched
  faulty : Patched
  hanging : Patched
  running : Patched

abbrev pub limit : ℕ
limit = 2 ^ 63

-- `FillBuffer` for a size that is cut to 32 bits, over what is left of a stream: the bytes that it
-- writes, if there are as many, and zeros behind them to the size asked for.
unfoldable pub can_fill : ℕ → List ℕ → Bool
can_fill size stream = leb (size % 2 ^ 32) (length stream)

-- What becomes of `FillBuffer` where the stream has fewer bytes: it asks a stream that stalls forever.
abbrev pub short : Bool → Patched
short true = hanging
short false = corrupt

unfoldable pub filled : ℕ → List ℕ → List ℕ
filled size stream = take (size % 2 ^ 32) stream ++ replicate (size - size % 2 ^ 32) 0

-- The old file's byte at a position, if it has one there.
unfoldable pub old_byte : List ℕ → ℤ → ℕ
old_byte old_data (pos n) = get_or old_data n 0
old_byte old_data (negsuc n) = 0

-- "Add old data to diff string", on bytes that wrap.
unfoldable pub add_old : List ℕ → ℤ → List ℕ → List ℕ
add_old old_data oldpos [] = []
add_old old_data oldpos (b ∷ diff) =
    (b + old_byte old_data oldpos) % 256 ∷ add_old old_data (oldpos +ℤ pos 1) diff

abbrev pub is_negative : ℤ → Bool
is_negative (pos _) = false
is_negative (negsuc _) = true

-- The loop of `ApplyBSDiffPatchMem`, at most `fuel` rounds, over what is left of the three streams.
-- `done` is new_data up to newpos.
unfoldable pub patch_loop :
    Stalls → ℕ → ℕ → List ℕ → List ℕ → List ℕ → List ℕ → ℤ → List ℕ → Patched
patch_loop stalls zero new_size old_data cstream dstream estream oldpos done = running
patch_loop stalls (suc fuel) new_size old_data cstream dstream estream oldpos done =
    let add = pos_part (offtin cstream) in
    let copy = pos_part (offtin (drop 8 cstream)) in
    let newpos = length done in
    let rest =
      patch_loop stalls fuel new_size old_data (drop 24 cstream) (drop (add % 2 ^ 32) dstream)
        (drop (copy % 2 ^ 32) estream) ((oldpos +ℤ pos add) +ℤ offtin (drop 16 cstream))
        (done ++ (add_old old_data oldpos (filled add dstream) ++ filled copy estream)) in
    if leb new_size newpos
    then patched done
    else if not (can_fill 24 cstream)
    then short stalls.control
    else if is_negative (offtin cstream) || is_negative (offtin (drop 8 cstream))
    then corrupt
    else if leb limit (newpos + add)
    then faulty
    else if ltb new_size (newpos + add)
    then corrupt
    else if not (can_fill add dstream)
    then short stalls.diff
    else if leb (2 ^ 31) add
    then faulty
    else if leb limit (newpos + add + copy)
    then faulty
    else if ltb new_size (newpos + add + copy)
    then corrupt
    else if not (can_fill copy estream)
    then short stalls.extra
    else rest

module _ (bzip2 : Bzip2) where
  -- The three streams stand behind the header.
  unfoldable pub stalls_in : ℕ → ℕ → List ℕ → Stalls
  stalls_in ctrl_len data_len blocks = record {
    control = bzip2.stalls (take ctrl_len blocks);
    diff = bzip2.stalls (take data_len (drop ctrl_len blocks));
    extra = bzip2.stalls (drop data_len (drop ctrl_len blocks));
  }

  -- `ApplyBSDiffPatchMem` of the patch at an offset. Nothing in the source checks that the header and the
  -- two lengths in it stay inside of the data.
  unfoldable pub apply_bsdiff_patch_mem : List ℕ → List ℕ → ℕ → Patched
  apply_bsdiff_patch_mem old_data data_read patch_offset =
      let header = drop patch_offset data_read in
      let ctrl_len = offtin (drop 8 header) in
      let data_len = offtin (drop 16 header) in
      let new_size = offtin (drop 24 header) in
      let blocks = drop 32 header in
      let unpacked = bzip2.decompress (take (pos_part ctrl_len) blocks) in
      if ltb (length header) 8
      then faulty
      else if not (text_eq (take 8 header) (codes "BSDIFF40"))
      then corrupt
      else if ltb (length header) 32
      then faulty
      else if is_negative ctrl_len || is_negative data_len || is_negative new_size
      then corrupt
      else if ltb (length blocks) (pos_part ctrl_len + pos_part data_len)
      then faulty
      else patch_loop (stalls_in (pos_part ctrl_len) (pos_part data_len) blocks)
          (suc (length unpacked)) (pos_part new_size) old_data unpacked
          (bzip2.decompress (take (pos_part data_len) (drop (pos_part ctrl_len) blocks)))
          (bzip2.decompress (drop (pos_part data_len) (drop (pos_part ctrl_len) blocks))) (pos 0) []

  -- `ApplyBSDiffPatch` with a sink that tells how many bytes it took: the result, and the bytes that
  -- the digest is updated with. `none` is undefined behaviour or no return.
  unfoldable pub deliver : (List ℕ → ℕ) → Patched → Option (ℤ × List ℕ)
  deliver sink (patched new_data) =
      some (if ltb (sink new_data) (length new_data) then (pos 1, []) else (pos 0, new_data))
  deliver sink corrupt = some (negsuc 0, [])
  deliver sink faulty = none
  deliver sink hanging = none
  deliver sink running = none

  unfoldable pub apply_bsdiff_patch : List ℕ → List ℕ → ℕ → (List ℕ → ℕ) → Option (ℤ × List ℕ)
  apply_bsdiff_patch old_data data_read patch_offset sink =
      deliver sink (apply_bsdiff_patch_mem old_data data_read patch_offset)
