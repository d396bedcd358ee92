-- ===== src/Blockimg/DryRun.antt =====
-- updater/blockimg.cpp: a run of `block_image_verify` leaves the device alone. Here for the calls that
-- load blocks and keep stashes.
pub mod Stashes
pub mod Loads
pub mod Commands
pub mod Run
use recovery.Base.{ℕ, suc, zero, ◌+◌, ◌≡◌, Bool, false, Text}
use recovery.Blockimg.Ranges.{RangeSet}
use recovery.Blockimg.Machine.{Env, Machine}
use recovery.Blockimg.Transfer.{allocate, read_range, read_ranges, read_blocks}
use recovery.Blockimg.Keeps.{
  Keeps, bind-Keeps, then-Keeps, get-Keeps, stop-Keeps, done-Keeps, if-Keeps, modify-Keeps,
}
use recovery.Blockimg.Quiet.{Quiet, read_all-Quiet, check_lseek-Quiet}

-- Whether the run writes, and what the device holds.
abbrev pub Same : Bool → Text → Machine → Type 0
Same w bytes m = (m.params.canwrite ≡ w) × (m.device ≡ bytes)

-- The run does not write.
abbrev pub Dry : Text → Machine → Type 0
Dry bytes = Same false bytes

pub Same-Quiet : {w : Bool} {bytes : Text} → Quiet (Same w bytes)
Same-Quiet = record {
  ticks = λ m n i. i;
  causes = λ m c i. i;
  offsets = λ m n i. i;
  states = λ m s i. i;
  files = λ m f i. i;
  dirs = λ m d i. i;
}

module _ {w : Bool} {bytes : Text} (env : Env) where
  pub allocate-Same : (size : ℕ) → Keeps (Same w bytes) (allocate size)
  unfolding allocate
  allocate-Same size = modify-Keeps _ (λ m i. i)

  read_range-Same : (src : RangeSet) (i p : ℕ) → Keeps (Same w bytes) (read_range env src i p)
  unfolding read_range
  read_range-Same src i p = then-Keeps (check_lseek-Quiet Same-Quiet env _) (
      get-Keeps (λ m d.
        then-Keeps (if-Keeps _ (stop-Keeps _) done-Keeps)
          (bind-Keeps (read_all-Quiet Same-Quiet env _ _) (λ content. modify-Keeps _ (λ s e. e)))))

  read_ranges-Same :
      (src : RangeSet) (i left p : ℕ) → Keeps (Same w bytes) (read_ranges env src i left p)
  unfolding read_ranges
  read_ranges-Same src i zero p = done-Keeps
  read_ranges-Same src i (suc left) p =
      then-Keeps (read_range-Same src i p) (read_ranges-Same src (i + 1) left _)

  pub read_blocks-Same : (src : RangeSet) → Keeps (Same w bytes) (read_blocks env src)
  unfolding read_blocks
  read_blocks-Same src = read_ranges-Same src 0 src.count 0
