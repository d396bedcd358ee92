-- ===== src/Blockimg/Transfer.antt =====
-- updater/blockimg.cpp: `read_all`, `write_all`, `discard_blocks`, `check_lseek`, `allocate`, `ReadBlocks`,
-- `WriteBlocks` and `VerifyBlocks`.
use recovery.Base.{
  ℕ, suc, zero, ◌+◌, ◌-◌, ◌*◌, ◌%◌, ◌^◌, ◌==◌, ltb, Bool, ◌++◌, List, [], ◌∷◌, length, take, drop,
  replicate, Text, text_eq, Option, none, some, if◌then◌else◌,
}
use recovery.ErrorCode.{lseek_failure, fread_failure, fwrite_failure}
use recovery.PrintSha1.{print_sha1}
use recovery.Blockimg.Ranges.{RangeSet, start_of, end_of, block_size}
use recovery.Blockimg.Machine.{
  Env, Machine, ok, failed, fault, M, ◌>>=◌, ◌>>◌, pure, done, get, stop, modify, fail_as,
  system_call, require,
}

-- A call that succeeds moves at least one of the bytes that are asked for, and at most all.
abbrev pub at_most : ℕ → ℕ → ℕ
at_most size n = if ltb size n then size else if n == 0 then 1 else n

abbrev pub smaller : ℕ → ℕ → ℕ
smaller a b = if ltb a b then a else b

-- Bytes in place of others, from a place on.
unfoldable pub splice : Text → ℕ → Text → Text
splice bytes place part = take place bytes ++ (part ++ drop (place + length part) bytes)

abbrev pub tick_on : Machine → Machine
tick_on m = record m { tick = m.tick + 1 }

-- -1 and the end of the file are failures.
abbrev pub received : ℕ → ℕ → Option ℕ → M ℕ
received left size none = fail_as fread_failure
received left size (some n) =
    if smaller left (at_most size n) == 0
    then fail_as fread_failure
    else pure (smaller left (at_most size n))

-- One `ota_read` of a file that has `left` bytes more: how many it reads.
unfoldable pub read_call : Env → ℕ → ℕ → M ℕ
read_call env left size m = received left size (env.read_result m.tick size) (tick_on m)

-- The loop of `read_all`, over what the file has from its offset on.
unfoldable pub read_loop : Env → ℕ → Text → ℕ → M Text
read_loop env zero bytes size = pure []
read_loop env (suc fuel) bytes zero = pure []
read_loop env (suc fuel) bytes (suc size) = do
  n ← read_call env (length bytes) (suc size)
  rest ← read_loop env fuel (drop n bytes) (suc size - n)
  pure (take n bytes ++ rest)

-- `read_all`: each round reads a byte at least.
unfoldable pub read_all : Env → Text → ℕ → M Text
read_all env bytes size = read_loop env size bytes size

-- What a descriptor writes to: the device at its offset, or the end of a file.
pub data Target : Type 0 where
  device : Target
  file : Text → Target

unfoldable pub append_to : Text → Text → List (Text × Text) → List (Text × Text)
append_to name bytes [] = []
append_to name bytes ((n, b) ∷ files) =
    if text_eq n name then (n, b ++ bytes) ∷ files else (n, b) ∷ append_to name bytes files

-- How many bytes have room behind the offset.
abbrev pub room : Target → Machine → ℕ → ℕ
room device m n = smaller (length m.device - m.offset) n
room (file name) m n = n

abbrev pub put : Target → Text → Machine → Machine
put device part m = record m {
  device = splice m.device m.offset part;
  offset = m.offset + length part;
}
put (file name) part m = record m { files = append_to name part m.files }

unfoldable pub sent : Target → Text → Option ℕ → M ℕ
sent target part none m = fail_as fwrite_failure m
sent target part (some n) m =
    let size = room target m (at_most (length part) n) in
    if size == 0 then fail_as fwrite_failure m else (ok size, put target (take size part) m)

-- One `ota_write`.
unfoldable pub write_call : Env → Target → Text → M ℕ
write_call env target part m = sent target part (env.write_result m.tick (length part)) (tick_on m)

unfoldable pub write_loop : Env → Target → ℕ → Text → M (Unit {0})
write_loop env target zero part = done
write_loop env target (suc fuel) [] = done
write_loop env target (suc fuel) (b ∷ part) = do
  n ← write_call env target (b ∷ part)
  write_loop env target fuel (drop n (b ∷ part))

-- `write_all`.
unfoldable pub write_all : Env → Target → Text → M (Unit {0})
write_all env target part = write_loop env target (length part) part

-- What stands on discarded places.
unfoldable pub discarded_bytes : (ℕ → ℕ) → ℕ → Text → Text
discarded_bytes byte place [] = []
discarded_bytes byte place (_ ∷ bytes) = byte place ∷ discarded_bytes byte (place + 1) bytes

-- The ioctl `BLKDISCARD`, on success.
unfoldable pub discard : Env → ℕ → ℕ → Machine → Machine
discard env place size m = record m {
  device =
      splice m.device place
        (discarded_bytes (env.discarded m.tick) place (take size (drop place m.device)));
}

-- `discard_blocks`.
unfoldable pub discard_blocks : Env → ℕ → ℕ → M (Unit {0})
discard_blocks env place size = do
  m ← get
  if m.is_retry
      then (require (system_call env) (stop failed) >> modify (discard env place size))
      else done

-- `check_lseek(fd, place, SEEK_SET)`.
unfoldable pub check_lseek : Env → ℕ → M (Unit {0})
check_lseek env place = do
  require (system_call env) (fail_as lseek_failure)
  modify (λ m. record m { offset = place })

-- `allocate`.
unfoldable pub allocate : ℕ → M (Unit {0})
allocate size = modify (λ m. record m { buffer = m.buffer ++ replicate (size - length m.buffer) 0 })

-- A number of blocks in bytes, as a `size_t`.
abbrev pub size_of : ℕ → ℕ
size_of blocks = blocks * block_size % 2 ^ 64

abbrev pub range_size : RangeSet → ℕ → ℕ
range_size rs i = (end_of rs i - start_of rs i) * block_size

-- One range of `ReadBlocks`, to the place p of the buffer.
unfoldable pub read_range : Env → RangeSet → ℕ → ℕ → M (Unit {0})
read_range env src i p = do
  check_lseek env (start_of src i * block_size)
  m ← get
  if ltb (length m.buffer) (p + range_size src i) then stop fault else done
  bytes ← read_all env (drop m.offset m.device) (range_size src i)
  modify (λ s. record s { buffer = splice s.buffer p bytes; offset = s.offset + range_size src i })

unfoldable pub read_ranges : Env → RangeSet → ℕ → ℕ → ℕ → M (Unit {0})
read_ranges env src i zero p = done
read_ranges env src i (suc left) p = do
  read_range env src i p
  read_ranges env src (i + 1) left (p + range_size src i)

-- `ReadBlocks` into the buffer.
unfoldable pub read_blocks : Env → RangeSet → M (Unit {0})
read_blocks env src = read_ranges env src 0 src.count 0

-- One range of `WriteBlocks`, from the place p of the buffer.
unfoldable pub write_range : Env → RangeSet → ℕ → ℕ → M (Unit {0})
write_range env tgt i p = do
  discard_blocks env (start_of tgt i * block_size) (range_size tgt i)
  check_lseek env (start_of tgt i * block_size)
  m ← get
  if ltb (length m.buffer) (p + range_size tgt i) then stop fault else done
  write_all env device (take (range_size tgt i) (drop p m.buffer))

unfoldable pub write_ranges : Env → RangeSet → ℕ → ℕ → ℕ → M (Unit {0})
write_ranges env tgt i zero p = done
write_ranges env tgt i (suc left) p = do
  write_range env tgt i p
  write_ranges env tgt (i + 1) left (p + range_size tgt i)

-- `WriteBlocks` from the buffer.
unfoldable pub write_blocks : Env → RangeSet → M (Unit {0})
write_blocks env tgt = write_ranges env tgt 0 tgt.count 0

-- `VerifyBlocks` of the buffer: whether the digest is the expected one.
unfoldable pub verify_blocks : Env → Text → ℕ → M Bool
verify_blocks env expected blocks = do
  m ← get
  if ltb (length m.buffer) (size_of blocks)
      then stop fault
      else pure (text_eq (print_sha1 (env.sha1 (take (size_of blocks) m.buffer))) expected)
