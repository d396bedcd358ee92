-- ===== src/Blockimg/Commands.antt =====
-- updater/blockimg.cpp: the functions that perform the commands of a transfer list.
use recovery.Base.{
  ℕ, suc, zero, ◌+◌, ◌-◌, ◌*◌, ◌==◌, ltb, leb, Bool, true, false, not, ◌&&◌, ◌||◌, [], length, take,
  drop, replicate, get_or, Text, is_empty, Option, none, some, if◌then◌else◌,
}
use recovery.Applypatch.Bspatch.{apply_bsdiff_patch_mem}
use recovery.Applypatch.Imgpatch.{
  Progress, going, error, undefined, never, sink_patched, apply_image_patch,
}
use recovery.Blockimg.Ranges.{RangeSet, start_of, end_of, block_size, size_max}
use recovery.Blockimg.Machine.{
  Env, Machine, Outcome, ok, failed, fault, hung, M, ◌>>=◌, ◌>>◌, done, get, stop, modify,
  set_params, attempt, system_call, require,
}
use recovery.Blockimg.Transfer.{
  device, splice, write_all, discard_blocks, check_lseek, allocate, size_of, range_size,
  write_blocks, discard,
}
use recovery.Blockimg.Stash.{free_stash}
use recovery.Blockimg.Stashing.{find_stash, erase_stash}
use recovery.Blockimg.Saving.{next_token, parse_or_exit, save_stash}
use recovery.Blockimg.Load.{
  Loaded, need_tokens, count_or_fail, load_src_tgt_version1, load_src_tgt_version2,
  load_src_tgt_version3,
}
use recovery.Blockimg.Sink.{set_sink, range_sink_write, receive, amount}

-- The load that the version of the transfer list asks for.
unfoldable pub load_src_tgt : Env → Bool → M Loaded
load_src_tgt env onehash = do
  m ← get
  if m.params.version == 1
      then load_src_tgt_version1 env
      else if m.params.version == 2
      then load_src_tgt_version2 env m.params.stashbase
      else load_src_tgt_version3 env onehash

-- The command writes unless it is completed already.
abbrev pub note_writes : Loaded → M (Unit {0})
note_writes loaded =
    set_params (λ p. record p { foundwrites = if loaded.completed then p.foundwrites else true })

-- A stash that was made for this command is freed; its failure is not looked at.
unfoldable pub free_own_stash : Env → M (Unit {0})
free_own_stash env = do
  m ← get
  if is_empty m.params.freestash then done else do
    freed ← attempt (free_stash env m.params.stashbase m.params.freestash)
    set_params (λ p. record p { freestash = [] })

abbrev pub count_written : RangeSet → M (Unit {0})
count_written tgt = set_params (λ p. record p { written = p.written + tgt.size })

-- What both kinds of commands do around the write to the target.
unfoldable pub perform_loaded : Env → Loaded → M (Unit {0}) → M (Unit {0})
perform_loaded env loaded write = do
  note_writes loaded
  m ← get
  if m.params.canwrite && not loaded.completed then write else done
  free_own_stash env
  count_written loaded.tgt

-- `PerformCommandMove`.
unfoldable pub perform_command_move : Env → M (Unit {0})
perform_command_move env = do
  loaded ← load_src_tgt env true
  perform_loaded env loaded (write_blocks env loaded.tgt)

-- `PerformCommandStash`.
unfoldable pub perform_command_stash : Env → M (Unit {0})
perform_command_stash env = do m ← get; save_stash env m.params.stashbase (leb 3 m.params.version)

abbrev pub is_some : Option RangeSet → Bool
is_some none = false
is_some (some _) = true

-- `PerformCommandFree`.
unfoldable pub perform_command_free : Env → M (Unit {0})
perform_command_free env = do
  need_tokens 0
  id ← next_token
  m ← get
  if not m.params.canwrite && is_some (find_stash id m.stash_map)
      then modify (λ s. record s { stash_map = erase_stash id s.stash_map })
      else if m.params.createdstash || m.params.canwrite
      then free_stash env m.params.stashbase id
      else done

-- The inner loop of `PerformCommandZero`: the block is written as often as the range has blocks.
unfoldable pub zero_blocks : Env → ℕ → M (Unit {0})
zero_blocks env zero = done
zero_blocks env (suc left) = do
  m ← get
  write_all env device (take block_size m.buffer)
  zero_blocks env left

unfoldable pub zero_ranges : Env → RangeSet → ℕ → ℕ → M (Unit {0})
zero_ranges env tgt i zero = done
zero_ranges env tgt i (suc left) = do
  discard_blocks env (start_of tgt i * block_size) (range_size tgt i)
  check_lseek env (start_of tgt i * block_size)
  zero_blocks env (end_of tgt i - start_of tgt i)
  zero_ranges env tgt (i + 1) left

-- `memset(buffer, 0, BLOCKSIZE)`.
unfoldable pub clear_block : M (Unit {0})
clear_block = modify (λ m. record m { buffer = splice m.buffer 0 (replicate block_size 0) })

-- `PerformCommandZero`.
unfoldable pub perform_command_zero : Env → M (Unit {0})
perform_command_zero env = do
  need_tokens 0
  range ← next_token
  tgt ← parse_or_exit env range
  allocate block_size
  clear_block
  m ← get
  if m.params.canwrite then zero_ranges env tgt 0 tgt.count else done
  if get_or m.params.cmdname 0 0 == b'z' then count_written tgt else done

-- A `RangeSinkState` for the target, and the device at its first range.
unfoldable pub open_sink : Env → RangeSet → ℕ → M (Unit {0})
open_sink env tgt discarded_size = do
  modify (set_sink (λ s. record { tgt = tgt; p_block = 0; p_remain = range_size tgt 0 }))
  discard_blocks env (start_of tgt 0 * block_size) discarded_size
  check_lseek env (start_of tgt 0 * block_size)

-- The main thread hands the sink over and waits for the other one.
unfoldable pub await_new_data : Env → M (Unit {0})
await_new_data env = do m ← get; receive env (amount m.new_data + env.retries) m.new_data

-- `PerformCommandNew`.
unfoldable pub perform_command_new : Env → M (Unit {0})
perform_command_new env = do
  need_tokens 0
  range ← next_token
  tgt ← parse_or_exit env range
  m ← get
  if m.params.canwrite then (open_sink env tgt (size_of tgt.size) >> await_new_data env) else done
  count_written tgt

-- What the patcher reports.
abbrev pub patch_outcome : Progress Machine → Outcome (Unit {0}) × Machine
patch_outcome (going m digested) = (ok tt, m)
patch_outcome (error m digested) = (failed, m)
patch_outcome (undefined m digested) = (fault, m)
patch_outcome (never m digested) = (hung, m)

-- `ApplyImagePatch` and `ApplyBSDiffPatch` with the source in the buffer and the sink to the target.
unfoldable pub apply_patch : Env → Bool → ℕ → Text → M (Unit {0})
apply_patch env image blocks patch_value m =
    let source = take (size_of blocks) m.buffer in
    patch_outcome (
      if image
      then apply_image_patch (range_sink_write env) env.zlib env.bzip2 source patch_value [] m
      else sink_patched (range_sink_write env) m []
          (apply_bsdiff_patch_mem env.bzip2 source patch_value 0))

-- The write of `PerformCommandDiff`: a patch that is not all in the package, or more source blocks than
-- the buffer holds, is undefined.
unfoldable pub write_patched : Env → Loaded → ℕ → ℕ → M (Unit {0})
write_patched env loaded offset len = do
  m ← get
  if ltb (length m.params.patch_data) (offset + len) then stop fault else done
  open_sink env loaded.tgt (range_size loaded.tgt 0)
  if ltb (length m.buffer) (size_of loaded.src_blocks) then stop fault else done
  apply_patch env (get_or m.params.cmdname 0 0 == b'i') loaded.src_blocks
      (take len (drop offset m.params.patch_data))

-- `PerformCommandDiff`, of the commands bsdiff and imgdiff.
unfoldable pub perform_command_diff : Env → M (Unit {0})
perform_command_diff env = do
  need_tokens 1
  offset_text ← next_token
  offset ← count_or_fail (env.parse_uint offset_text size_max)
  len_text ← next_token
  len ← count_or_fail (env.parse_uint len_text size_max)
  loaded ← load_src_tgt env false
  perform_loaded env loaded (write_patched env loaded offset len)

unfoldable pub erase_ranges : Env → RangeSet → ℕ → ℕ → M (Unit {0})
erase_ranges env tgt i zero = done
erase_ranges env tgt i (suc left) = do
  require (system_call env) (stop failed)
  modify (discard env (start_of tgt i * block_size) (range_size tgt i))
  erase_ranges env tgt (i + 1) left

-- `PerformCommandErase`.
unfoldable pub perform_command_erase : Env → M (Unit {0})
perform_command_erase env = do
  require (system_call env) (stop failed)
  if env.is_block_device then done else stop failed
  need_tokens 0
  range ← next_token
  tgt ← parse_or_exit env range
  m ← get
  if m.params.canwrite then erase_ranges env tgt 0 tgt.count else done
