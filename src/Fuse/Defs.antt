-- ===== src/Fuse/Defs.antt =====
-- fuse_sideload.cpp: the block cache and the requests. `uint32_t` and `uint64_t` arithmetic wraps as in
-- the source; SHA-256 and the host are parameters.
use recovery.Base.{
  ℕ, zero, ◌+◌, ◌-◌, ◌*◌, ◌/◌, ◌%◌, ◌^◌, ◌==◌, ltb, leb, Bool, true, false, not, ◌++◌, List, length,
  take, drop, get_or, set, replicate, text_eq, if◌then◌else◌,
}
use recovery.Base.Int.{ℤ, pos, negsuc}

abbrev pub u32 : ℕ
u32 = 2 ^ 32

abbrev pub u64 : ℕ
u64 = 2 ^ 64

-- What a call of `vtab->read_block` does: its result, and the bytes at the front of the buffer that it
-- has overwritten, also when it fails.
pub record Fetched : Type 0 where
  pub result : ℤ
  pub written : List ℕ

-- `read_block(cookie, block, buffer, fetch_size)` at one moment.
abbrev pub Provider : Type 0
Provider = ℕ → ℕ → Fetched

-- The part of `struct fuse_data` that the requests read and write. `hashes` holds one digest to a
-- block.
pub record FuseData : Type 0 where
  pub file_size : ℕ
  pub block_size : ℕ
  pub file_blocks : ℕ
  pub uid : ℕ
  pub gid : ℕ
  pub curr_block : ℕ
  pub block_data : List ℕ
  pub extra_block : List ℕ
  pub hashes : List (List ℕ)

abbrev pub is_negative : ℤ → Bool
is_negative (pos _) = false
is_negative (negsuc _) = true

abbrev pub eio : ℤ
eio = negsuc 4

abbrev pub enoent : ℤ
enoent = negsuc 1

abbrev pub no_digest : List ℕ
no_digest = replicate 32 0

-- Bytes at the front of a buffer, and what was behind them.
abbrev pub overwrite : List ℕ → List ℕ → List ℕ
overwrite bytes buffer = bytes ++ drop (length bytes) buffer

-- `block * fd->block_size`, a product of two `uint32_t`.
abbrev pub block_start : FuseData → ℕ → ℕ
block_start fd block = block * fd.block_size % u32

-- `block * fd->block_size + fetch_size > fd->file_size`.
unfoldable pub is_partial : FuseData → ℕ → Bool
is_partial fd block = ltb fd.file_size (block_start fd block + fd.block_size)

unfoldable pub fetch_size : FuseData → ℕ → ℕ
fetch_size fd block =
    if is_partial fd block then fd.file_size - block_start fd block else fd.block_size

-- The `memset` behind a short last block.
unfoldable pub clear_tail : FuseData → ℕ → List ℕ
clear_tail fd block =
    if is_partial fd block
    then take (fetch_size fd block) fd.block_data
      ++ replicate (fd.block_size - fetch_size fd block) 0
    else fd.block_data

abbrev pub Sha256 : Type 0
Sha256 = List ℕ → List ℕ

-- `fetch_block` behind the call of the host: the check of the block's hash.
unfoldable pub check_hash : Sha256 → ℕ → FuseData → ℤ × FuseData
check_hash sha256 block fd =
    let hash = sha256 fd.block_data in
    let blockhash = get_or fd.hashes block no_digest in
    if text_eq hash blockhash
    then (pos 0, fd)
    else if not (text_eq blockhash no_digest)
    then (eio, record fd { curr_block = u32 - 1 })
    else (pos 0, record fd { hashes = set fd.hashes block hash })

unfoldable pub fetch_from_host : Sha256 → Provider → ℕ → FuseData → ℤ × FuseData
fetch_from_host sha256 read_block block fd =
    let fetched = read_block block (fetch_size fd block) in
    let buffer = overwrite fetched.written (clear_tail fd block) in
    let checked = check_hash sha256 block (record fd { block_data = buffer; curr_block = block }) in
    if is_negative fetched.result
    then (fetched.result, record fd { block_data = buffer })
    else checked

-- `fetch_block`.
unfoldable pub fetch_block : Sha256 → Provider → ℕ → FuseData → ℤ × FuseData
fetch_block sha256 read_block block fd =
    let fetch = fetch_from_host sha256 read_block block fd in
    if block == fd.curr_block
    then (pos 0, fd)
    else if leb fd.file_blocks block
    then (pos 0, record fd { block_data = replicate fd.block_size 0; curr_block = block })
    else fetch

-- What a request is answered with: the reply of the handler itself, or an error number.
pub data Reply : Type 0 where
  bytes : List ℕ → Reply
  error : ℤ → Reply

abbrev pub is_zero : ℤ → Bool
is_zero (pos zero) = true
is_zero _ = false

-- `offset - block * block_size`, a `uint64_t` that is stored in a `uint32_t`.
unfoldable pub block_offset : FuseData → ℕ → ℕ
block_offset fd offset = (offset + u64 - block_start fd (offset / fd.block_size % u32)) % u64 % u32

-- The second case of `handle_read`, after the first block was fetched.
unfoldable pub read_across : Sha256 → Provider → ℕ → ℕ → ℕ → FuseData → Reply × FuseData
read_across sha256 read_block block start size fd =
    let head = take (fd.block_size - start) (drop start fd.block_data) in
    let (result, fd') =
      fetch_block sha256 read_block ((block + 1) % u32)
        (record fd { extra_block = overwrite head fd.extra_block }) in
    if not (is_zero result) then (error result, fd') else (
      bytes (
          take (fd.block_size - start) fd'.extra_block
          ++ take (size - (fd.block_size - start)) fd'.block_data),
      fd',
    )

-- `handle_read` of the package at an offset of 64 bits, for a size of 32 bits. The host may answer each
-- of the two fetches as it likes.
unfoldable pub read_package : Sha256 → Provider → Provider → ℕ → ℕ → FuseData → Reply × FuseData
read_package sha256 read_block read_block' offset size fd =
    let block = offset / fd.block_size % u32 in
    let start = block_offset fd offset in
    let (result, fd') = fetch_block sha256 read_block block fd in
    let across = read_across sha256 read_block' block start size fd' in
    if not (is_zero result)
    then (error result, fd')
    else if leb ((size + start) % u32) fd.block_size
    then (bytes (take size (drop start fd'.block_data)), fd')
    else across
