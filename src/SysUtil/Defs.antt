-- ===== src/SysUtil/Defs.antt =====
-- otautil/SysUtil.cpp: `sysMapFile` with `sysMapFD` and `sysMapBlockFile`. What the system and the libraries
-- answer is in the record System; an address is a place in the memory that is reserved.
use recovery.Base.{
  ℕ, ◌+◌, ◌-◌, ◌*◌, ◌/◌, ◌%◌, ◌^◌, ◌==◌, ltb, leb, Bool, not, ◌||◌, List, [], ◌∷◌, length, Text,
  Option, none, some, if◌then◌else◌,
}
use recovery.Blockimg.Ranges.{size_max}

-- `read_file` is `ReadFileToString`, `lines` is `Split` by line ends of the trimmed text, `scan_one` and
-- `scan_two` are `sscanf` of one and of two unsigned numbers.
pub record System : Type 0 where
  pub read_file : Text → Option Text
  pub lines : Text → List Text
  pub scan_one : Text → Option ℕ
  pub scan_two : Text → Option (ℕ × ℕ)
  pub reserves : ℕ → Bool
  pub opens : Text → Bool
  pub file_size : Text → Option ℕ
  pub maps : ℕ → ℕ → Bool

-- `struct MappedRange`, with the place in the file or device that is mapped there.
pub record MappedRange : Type 0 where
  pub addr : ℕ
  pub length : ℕ
  pub offset : ℕ

-- `struct MemMapping`; the data start at the first address.
pub record MemMapping : Type 0 where
  pub source : Text
  pub length : ℕ
  pub ranges : List MappedRange

unfoldable pub with_some : {A B : Type 0} → (A → Option B) → Option A → Option B
with_some f none = none
with_some f (some a) = f a

-- The length of a range in bytes, as a `size_t`.
abbrev pub bytes_of : ℕ → ℕ × ℕ → ℕ
bytes_of blksize r = (r.1 - r.0) * blksize % 2 ^ 64

-- "unexpected range in block map"
abbrev pub unexpected : ℕ → ℕ → ℕ × ℕ → Bool
unexpected blksize remaining_size r =
    leb r.1 r.0 || ltb (size_max / blksize) (r.1 - r.0) || ltb remaining_size (bytes_of blksize r)

abbrev pub mapped_at : ℕ → ℕ → ℕ × ℕ → MappedRange
mapped_at blksize next r = record {
  addr = next;
  length = bytes_of blksize r;
  offset = r.0 * blksize;
}

-- The number of blocks of a file; it is not used when either number is 0.
abbrev pub blocks_in : ℕ → ℕ → ℕ
blocks_in size blksize = (size - 1) / blksize + 1

module _ (system : System) where
  -- The loop over the lines of the ranges; in the end nothing of the reserved memory may be left.
  unfoldable pub map_ranges : ℕ → List Text → ℕ → ℕ → Option (List MappedRange)
  map_ranges blksize [] next remaining_size = if remaining_size == 0 then some [] else none
  map_ranges blksize (line ∷ lines) next remaining_size =
      with_some
        (λ (r : ℕ × ℕ).
          if unexpected blksize remaining_size r
          then none
          else if not (system.maps (r.0 * blksize) (bytes_of blksize r))
          then none
          else with_some (λ ranges. some (mapped_at blksize next r ∷ ranges))
              (map_ranges blksize lines (next + bytes_of blksize r)
                (remaining_size - bytes_of blksize r)))
        (system.scan_two line)

  -- The device is mapped into memory that is reserved for all of the file.
  unfoldable pub map_device : Text → ℕ → ℕ → List Text → Option MemMapping
  map_device block_dev size blksize lines =
      if not (system.reserves (blocks_in size blksize * blksize))
      then none
      else if not (system.opens block_dev)
      then none
      else with_some
          (λ ranges. some (record { source = block_dev; length = size; ranges = ranges }))
          (map_ranges blksize lines 0 (blocks_in size blksize * blksize))

  unfoldable pub map_checked : Text → ℕ → ℕ → ℕ → List Text → Option MemMapping
  map_checked block_dev size blksize range_count lines =
      if size == 0
        || blksize == 0
        || ltb (size_max / blksize) (blocks_in size blksize)
        || range_count == 0
        || not (length lines == range_count)
      then none
      else map_device block_dev size blksize lines

  -- The lines of a block map; fewer than four are too few.
  unfoldable pub map_lines : List Text → Option MemMapping
  map_lines (block_dev ∷ sizes ∷ count ∷ line ∷ lines) =
      with_some
        (λ (s : ℕ × ℕ).
          with_some (λ range_count. map_checked block_dev s.0 s.1 range_count (line ∷ lines))
            (system.scan_one count))
        (system.scan_two sizes)
  map_lines [] = none
  map_lines (_ ∷ []) = none
  map_lines (_ ∷ _ ∷ []) = none
  map_lines (_ ∷ _ ∷ _ ∷ []) = none

  -- `sysMapBlockFile`.
  unfoldable pub sys_map_block_file : Text → Option MemMapping
  sys_map_block_file filename =
      with_some (λ content. map_lines (system.lines content)) (system.read_file filename)

  abbrev pub map_whole : Text → ℕ → Option MemMapping
  map_whole fn size =
      if system.maps 0 size
      then some (record {
        source = fn;
        length = size;
        ranges = record { addr = 0; length = size; offset = 0 } ∷ [];
      })
      else none

  -- `sysMapFD`.
  unfoldable pub sys_map_fd : Text → Option MemMapping
  sys_map_fd fn = with_some (map_whole fn) (system.file_size fn)

  -- `sysMapFile` of a name that is no null pointer; the name of a block map is behind an at sign.
  unfoldable pub sys_map_file : Text → Option MemMapping
  sys_map_file [] = if system.opens [] then sys_map_fd [] else none
  sys_map_file (c ∷ fn) =
      if c == 64
      then sys_map_block_file fn
      else if system.opens (c ∷ fn)
      then sys_map_fd (c ∷ fn)
      else none
