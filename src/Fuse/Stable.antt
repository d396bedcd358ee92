-- ===== src/Fuse/Stable.antt =====
-- fuse_sideload.cpp: repeated reads of one block, over any number of fetches in between, and how a
-- failed fetch breaks the cache.
use recovery.Base.{ℕ, ◌<◌, ◌≡◌, ◌≢◌, refl, sym, ap, ◌∙◌, true, get_or, arith}
use recovery.Base.Int.{pos}
use recovery.Fuse.Defs.{
  FuseData, Provider, Sha256, is_negative, no_digest, overwrite, fetch_size, clear_tail, check_hash,
  fetch_from_host, fetch_block,
}
use recovery.Fuse.Hashes.{
  Consistent, Answers, KeepsRecords, fetch_block-KeepsRecords, fetch_block-Consistent,
  fetch_block_curr,
}

module _ (sha256 : Sha256) where
  -- Fetches, one after another, of any blocks; the host may change its mind each time.
  pub data Fetches (fd : FuseData) : FuseData → Type 0 where
    start : Fetches fd fd
    fetch :
        {fd' : FuseData} (read_block : Provider) (block : ℕ)
        → Fetches fd fd'
        → Answers read_block block fd'
        → Fetches fd (fetch_block sha256 read_block block fd').1

  Fetches-Consistent :
      {fd fd' : FuseData} → Fetches fd fd' → Consistent sha256 fd → Consistent sha256 fd'
  Fetches-Consistent start c = c
  Fetches-Consistent (fetch read_block block f a) c =
      fetch_block-Consistent sha256 read_block block _ (Fetches-Consistent f c) a

  Fetches-KeepsRecords : {fd fd' : FuseData} → Fetches fd fd' → KeepsRecords sha256 fd fd'
  Fetches-KeepsRecords start b known = refl
  Fetches-KeepsRecords (fetch {fd'} read_block block f a) b known =
      let e = Fetches-KeepsRecords f b known in
      fetch_block-KeepsRecords sha256 read_block block fd' b (rw e known) ∙ e

  fetch_block_size :
      (read_block : Provider) (block : ℕ) (fd : FuseData)
      → (fetch_block sha256 read_block block fd).1.file_blocks ≡ fd.file_blocks
  unfolding fetch_block fetch_from_host check_hash
  fetch_block_size read_block block fd = ground arith

  Fetches_size : {fd fd' : FuseData} → Fetches fd fd' → fd'.file_blocks ≡ fd.file_blocks
  Fetches_size start = refl
  Fetches_size (fetch read_block block f a) = fetch_block_size read_block block _ ∙ Fetches_size f

  -- After a successful fetch of a block of the file, the digest on record is that of the data.
  fetched-recorded :
      (read_block : Provider) (block : ℕ) (fd : FuseData)
      → Consistent sha256 fd
      → Answers read_block block fd
      → block < fd.file_blocks
      → (fetch_block sha256 read_block block fd).0 ≡ pos 0
      → sha256 (fetch_block sha256 read_block block fd).1.block_data
        ≡ get_or (fetch_block sha256 read_block block fd).1.hashes block no_digest
  fetched-recorded read_block block fd c a h e =
      let at_block = fetch_block_curr sha256 read_block block fd a e in
      (fetch_block-Consistent sha256 read_block block fd c a).cached
        (rw (at_block, fetch_block_size read_block block fd) h)
      ∙ ap (λ (b : ℕ). get_or (fetch_block sha256 read_block block fd).1.hashes b no_digest)
          at_block

  -- The invariant that the header of the file states, as far as digests tell data apart and the host
  -- reports no failure: whatever is fetched in between, two successful fetches of one block of the file
  -- give data of the same SHA-256, unless that of the first is all zero.
  pub fetch_block_stable :
      (p q : Provider) (block : ℕ) (fd fd' : FuseData)
      → Consistent sha256 fd
      → block < fd.file_blocks
      → Answers p block fd
      → (fetch_block sha256 p block fd).0 ≡ pos 0
      → sha256 (fetch_block sha256 p block fd).1.block_data ≢ no_digest
      → Fetches (fetch_block sha256 p block fd).1 fd'
      → Answers q block fd'
      → (fetch_block sha256 q block fd').0 ≡ pos 0
      → sha256 (fetch_block sha256 q block fd').1.block_data
        ≡ sha256 (fetch_block sha256 p block fd).1.block_data
  fetch_block_stable p q block fd fd' c h a e nonzero f a' e' =
      let first = fetched-recorded p block fd c a h e in
      let c' = Fetches-Consistent f (fetch_block-Consistent sha256 p block fd c a) in
      let same_size = Fetches_size f ∙ fetch_block_size p block fd in
      let second = fetched-recorded q block fd' c' a' (rw same_size h) e' in
      let known = rw first at nonzero in
      let kept = Fetches-KeepsRecords f block known in
      second ∙ fetch_block-KeepsRecords sha256 q block fd' block (rw kept known) ∙ kept ∙ sym first

  -- A fetch that the host fails after it has written to the buffer leaves the old block marked as
  -- cached over the new bytes: the next fetch of the old block succeeds, without a check, on them.
  pub failed_fetch-stale :
      (p q : Provider) (block : ℕ) (fd : FuseData)
      → block ≢ fd.curr_block
      → block < fd.file_blocks
      → is_negative (p block (fetch_size fd block)).result ≡ true
      → let failed = (fetch_block sha256 p block fd).1 in
        (fetch_block sha256 q fd.curr_block failed ≡ (pos 0, failed))
        × (failed.block_data
            ≡ overwrite (p block (fetch_size fd block)).written (clear_tail fd block))
        × (failed.hashes ≡ fd.hashes)
  unfolding fetch_block fetch_from_host
  failed_fetch-stale p q block fd ne h failed = ground arith
