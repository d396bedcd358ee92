-- ===== src/SysUtil/Remapped.antt =====
-- otautil/SysUtil.cpp and uncrypt/uncrypt.cpp: what the one program publishes, the other maps.
use recovery.Base.{
  ℕ, suc, zero, ◌+◌, ◌*◌, ◌^◌, ◌≤◌, ◌<◌, ◌≡◌, refl, sym, ap, ◌∙◌, Text, some, Bool, arith,
}
use recovery.Uncrypt.Defs.{Window, ok, produce_block_map}
use recovery.Uncrypt.Defs as Uncrypt
use recovery.Uncrypt.Collected.{Complete}
use recovery.Uncrypt.Mapped.{Published, map_text, produce_block_map-Published}
use recovery.SysUtil.Lines.{map_texts, map_text-eq, map_texts-Lines}
use recovery.SysUtil.Defs.{System, with_some, sys_map_block_file}
use recovery.SysUtil.Restored.{pieces, Reads, length-listed, Blocks-length, lines_mapped}

positive_of : (n blksize : ℕ) → 0 < n * blksize → 0 < blksize
positive_of n zero h = omega arith
positive_of n (suc blksize) h = omega arith

module _ (uncrypt : Uncrypt.System) (system : System) (filename blk_dev : Text) (encrypted : Bool)
    (size blksize : ℕ) where
  -- What was written is split into the lines that it was made of.
  split :
      (w : Window) (text : Text)
      → text ≡ map_text blk_dev size blksize w.ranges
      → Complete uncrypt size blksize encrypted w
      → Reads system filename text blk_dev size blksize w.ranges
      → system.lines text ≡ map_texts blk_dev size blksize w.ranges
  split w text t h r =
      ap system.lines (t ∙ map_text-eq blk_dev size blksize w.ranges)
      ∙ r.splits (map_texts blk_dev size blksize w.ranges)
          (map_texts-Lines blk_dev size blksize w.ranges r.device_name h.paired)

  restored :
      (w : Window) (text : Text)
      → Published uncrypt blk_dev size blksize encrypted (w, text)
      → 0 < size
      → size + blksize ≤ 2 ^ 64
      → Reads system filename text blk_dev size blksize w.ranges
      → (blocks : ℕ) → w.head_block ≡ blocks
      → sys_map_block_file system filename
        ≡ some (record { source = blk_dev; length = size; ranges = pieces blksize 0 w.ranges })
  unfolding sys_map_block_file with_some
  restored w text (h, t) p c r zero e =
      absurd (omega (arith, h.enough, ap (λ (n : ℕ). n * blksize) e))
  restored w text (h, t) p c r (suc k) e = rw r.content (
      rw (split w text t h r) (
        lines_mapped system filename text blk_dev size blksize w.ranges r
          (positive_of w.head_block blksize (omega (arith, h.enough))) k
          (omega (arith, h.needed, ap (λ (n : ℕ). n * blksize) e))
          (omega (arith, h.enough, ap (λ (n : ℕ). n * blksize) e)) c w.ranges h.paired r.scanned
          (sym (length-listed w.ranges) ∙ Blocks-length h.blocks ∙ e) r.count))

  -- A map that `produce_block_map` publishes for a package that is not empty, whose size and one block
  -- more can be counted in 64 bits, is accepted by `sysMapBlockFile`, if the map's file is read,
  -- `Split` and `Trim` take a text of lines apart at their ends, the numbers in it are read as they were
  -- printed, the device's name has no blanks, and no call of the system to map memory fails: the
  -- mapping is of the device, as long as the package, and has the ranges of the package's blocks one
  -- behind the other from its first address on.
  pub sys_map_block_file-produce_block_map :
      (w : Window) (text : Text)
      → uncrypt.stat ≡ some (size, blksize)
      → produce_block_map uncrypt blk_dev encrypted ≡ ok (w, text)
      → 0 < size
      → size + blksize ≤ 2 ^ 64
      → Reads system filename text blk_dev size blksize w.ranges
      → sys_map_block_file system filename
        ≡ some (record { source = blk_dev; length = size; ranges = pieces blksize 0 w.ranges })
  sys_map_block_file-produce_block_map w text s e p c r =
      restored w text
        (produce_block_map-Published uncrypt blk_dev encrypted size blksize w text s e) p c r
        w.head_block refl
