-- ===== src/Blockimg/Load.antt =====
-- updater/blockimg.cpp: `LoadSrcTgtVersion1`, `LoadSrcTgtVersion2` and `LoadSrcTgtVersion3`.
use recovery.Base.{
  ℕ, suc, zero, ◌+◌, ◌-◌, ◌*◌, ltb, leb, Bool, true, false, ◌&&◌, List, [], ◌∷◌, length, drop, Text,
  codes, text_eq, Option, none, some, if◌then◌else◌,
}
use recovery.Blockimg.Ranges.{RangeSet, start_of, end_of, block_size, range_overlaps, size_max}
use recovery.Blockimg.Move.{move_range, move_range_from}
use recovery.Blockimg.Machine.{
  Env, failed, fault, M, ◌>>=◌, ◌>>◌, pure, done, get, stop, modify, set_params, attempt,
  with_buffer,
}
use recovery.Blockimg.Transfer.{allocate, size_of, read_blocks, verify_blocks}
use recovery.Blockimg.Stashing.{load_stash, write_stash_checked}
use recovery.Blockimg.Saving.{next_token, parse_or_exit, succeeds}

-- What a load has found: the target, the number of source blocks, whether source and target overlap,
-- and whether the command is completed already, which is the result 1.
pub record Loaded : Type 0 where
  pub tgt : RangeSet
  pub src_blocks : ℕ
  pub overlap : Bool
  pub completed : Bool

-- `if (params.cpos + more >= params.tokens.size()) return -1;`
unfoldable pub need_tokens : ℕ → M (Unit {0})
need_tokens more = do
  m ← get
  if ltb (m.params.cpos + more) (length m.params.tokens) then done else stop failed

-- `LoadSrcTgtVersion1`.
unfoldable pub load_src_tgt_version1 : Env → M Loaded
load_src_tgt_version1 env = do
  need_tokens 1
  src_range ← next_token
  src ← parse_or_exit env src_range
  tgt_range ← next_token
  tgt ← parse_or_exit env tgt_range
  allocate (size_of src.size)
  read_blocks env src
  pure (record { tgt = tgt; src_blocks = src.size; overlap = false; completed = false })

-- Whether `MoveRange` stays inside of both buffers, from `left` ranges on down.
unfoldable pub fits_inside : RangeSet → ℕ → ℕ → ℕ → ℕ → Bool
fits_inside locs zero start room source = true
fits_inside locs (suc i) start room source =
    let blocks = end_of locs i - start_of locs i in
    leb blocks start
    && leb ((start_of locs i + blocks) * block_size) room
    && leb (start * block_size) source
    && fits_inside locs i (start - blocks) room source

-- `MoveRange(buffer, locs, buffer)` on the buffer; accesses outside of it are undefined.
unfoldable pub move_packed : RangeSet → M (Unit {0})
move_packed locs = do
  m ← get
  if fits_inside locs locs.count locs.size (length m.buffer) (length m.buffer)
      then modify (λ s. record s { buffer = move_range s.buffer locs })
      else stop fault

-- `MoveRange(buffer, locs, stash)`.
unfoldable pub move_stashed : Text → RangeSet → M (Unit {0})
move_stashed stash locs = do
  m ← get
  if fits_inside locs locs.count locs.size (length m.buffer) (length stash)
      then modify (λ s. record s { buffer = move_range_from s.buffer locs stash })
      else stop fault

-- A stash that cannot be loaded is passed over.
abbrev pub move_loaded : Env → Text → Option (Unit {0} × Text) → M (Unit {0})
move_loaded env range none = done
move_loaded env range (some (_, stash)) = do locs ← parse_or_exit env range; move_stashed stash locs

-- One word `stash_id:stash_range`.
abbrev pub load_word : Env → Text → List Text → M (Unit {0})
load_word env stashbase (id ∷ range ∷ []) =
    attempt (with_buffer [] (load_stash env stashbase id false)) >>= move_loaded env range
load_word env stashbase other = stop failed

-- The loop over the words that are left.
unfoldable pub load_words : Env → Text → List Text → M (Unit {0})
load_words env stashbase [] = done
load_words env stashbase (word ∷ words) = do
  set_params (λ p. record p { cpos = p.cpos + 1 })
  load_word env stashbase (env.split b':' word)
  load_words env stashbase words

unfoldable pub remaining_words : Env → Text → M (Unit {0})
remaining_words env stashbase = do
  m ← get
  load_words env stashbase (drop m.params.cpos m.params.tokens)

-- The source range, with the places for its blocks and the stashes if there are more words: whether it
-- overlaps with the target.
unfoldable pub load_source_range : Env → Text → RangeSet → Text → M Bool
load_source_range env stashbase tgt src_range = do
  src ← parse_or_exit env src_range
  read_blocks env src
  m ← get
  if ltb m.params.cpos (length m.params.tokens)
      then (do
        locations ← next_token
        locs ← parse_or_exit env locations
        move_packed locs
        remaining_words env stashbase
        pure (range_overlaps src tgt))
      else pure (range_overlaps src tgt)

abbrev pub count_or_fail : Option ℕ → M ℕ
count_or_fail none = stop failed
count_or_fail (some n) = pure n

-- `LoadSrcTgtVersion2`.
unfoldable pub load_src_tgt_version2 : Env → Text → M Loaded
load_src_tgt_version2 env stashbase = do
  need_tokens 2
  tgt_range ← next_token
  tgt ← parse_or_exit env tgt_range
  token ← next_token
  src_blocks ← count_or_fail (env.parse_uint token size_max)
  allocate (size_of src_blocks)
  src_range ← next_token
  overlap ←
      (if text_eq src_range (codes "-")
        then (remaining_words env stashbase >> pure false)
        else load_source_range env stashbase tgt src_range)
  pure (record { tgt = tgt; src_blocks = src_blocks; overlap = overlap; completed = false })

-- The digest of the target's blocks, read to a buffer of their own.
unfoldable pub verify_target : Env → Text → RangeSet → M Bool
verify_target env tgthash tgt = do
  r ←
      with_buffer []
        (allocate (size_of tgt.size) >> read_blocks env tgt >> verify_blocks env tgthash tgt.size)
  pure r.0

-- The source blocks are stashed if the write to come destroys them.
unfoldable pub stash_overlapping : Env → Text → Loaded → M (Unit {0})
stash_overlapping env srchash loaded = do
  m ← get
  if loaded.overlap && m.params.canwrite
      then (do
        exists ← write_stash_checked env m.params.stashbase srchash loaded.src_blocks
        set_params (λ p. record p {
          stashed = p.stashed + loaded.src_blocks;
          freestash = if exists then p.freestash else srchash;
        }))
      else done

-- The last way to the source blocks: a stash that an interrupted command has left.
unfoldable pub load_interrupted : Env → Text → Loaded → M Loaded
load_interrupted env srchash loaded = do
  m ← get
  restored ←
      (if loaded.overlap
        then attempt (load_stash env m.params.stashbase srchash true)
        else pure none)
  if succeeds restored
      then pure loaded
      else (set_params (λ p. record p { isunresumable = true }) >> stop failed)

-- `LoadSrcTgtVersion3` once the hashes are read.
unfoldable pub load_src_tgt_hashed : Env → Text → Text → M Loaded
load_src_tgt_hashed env srchash tgthash = do
  m ← get
  loaded ← load_src_tgt_version2 env m.params.stashbase
  written ← verify_target env tgthash loaded.tgt
  if written then pure (record loaded { completed = true }) else do
    right ← verify_blocks env srchash loaded.src_blocks
    if right
        then (stash_overlapping env srchash loaded >> pure loaded)
        else load_interrupted env srchash loaded

-- `LoadSrcTgtVersion3`.
unfoldable pub load_src_tgt_version3 : Env → Bool → M Loaded
load_src_tgt_version3 env onehash = do
  need_tokens 0
  srchash ← next_token
  if onehash
      then load_src_tgt_hashed env srchash srchash
      else do need_tokens 0; tgthash ← next_token; load_src_tgt_hashed env srchash tgthash
