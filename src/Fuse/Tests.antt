-- ===== src/Fuse/Tests.antt =====
-- fuse_sideload.cpp: fetches and sessions over small files.
use recovery.Base.{
  ℕ, ◌+◌, ◌-◌, ◌*◌, ◌≡◌, ◌≢◌, refl, ◌++◌, List, [], ◌∷◌, some, replicate, take, arith, ap, codes,
  get_or,
}
use recovery.Base.Int.{pos, negsuc}
use recovery.Fuse.Defs.{
  u32, FuseData, Provider, Sha256, no_digest, overwrite, is_partial, fetch_size, clear_tail,
  check_hash, fetch_from_host, fetch_block, read_package,
}
use recovery.Fuse.Content.{sends, Holds}
use recovery.Fuse.Hashes.{Consistent, fetch_block-Consistent, fetch_block-KeepsRecords}
use recovery.Fuse.Stable.{Fetches, fetch_block_stable, failed_fetch-stale}
use recovery.Fuse.Faithful.{Ready, fetch_block-Ready}
use recovery.Fuse.Read.{Answered, read_package-Answered}
use recovery.Fuse.Requests.{Kernel, fuse_lookup, fuse_read, fuse_flush}
use recovery.Fuse.Session.{Incoming, request, too_short, serve, open_session, count_blocks}
use recovery.Fuse.Answers
use recovery.Fuse.Opening.{open_session-Holds}

-- A digest that tells short data apart.
abbrev sum_bytes : List ℕ → ℕ
sum_bytes [] = 0
sum_bytes (b ∷ rest) = b + 2 * sum_bytes rest

abbrev digest : Sha256
digest content = sum_bytes (take 8 content) ∷ replicate 31 1

-- Two blocks of four bytes, of which the first is cached.
abbrev two_blocks : FuseData
two_blocks = record {
  file_size = 6;
  block_size = 4;
  file_blocks = 2;
  uid = 0;
  gid = 0;
  curr_block = 0;
  block_data = 1 ∷ 2 ∷ 3 ∷ 4 ∷ [];
  extra_block = replicate 4 0;
  hashes = digest (1 ∷ 2 ∷ 3 ∷ 4 ∷ []) ∷ no_digest ∷ [];
}

abbrev small_file : List ℕ
small_file = 1 ∷ 2 ∷ 3 ∷ 4 ∷ 5 ∷ 6 ∷ []

abbrev host : Provider
host = sends small_file 4

-- A host that writes three bytes and then fails.
abbrev failing_host : Provider
failing_host block size = record { result = negsuc 4; written = 9 ∷ 9 ∷ 9 ∷ [] }

two_blocks-Consistent : Consistent digest two_blocks
two_blocks-Consistent = record { blocks_fit = omega arith; sized = refl; cached = λ _. refl }

first_recorded : get_or two_blocks.hashes 0 no_digest ≢ no_digest
first_recorded e =
    absurd (let zero_head : 49 ≡ 0 = ap (λ (d : List ℕ). get_or d 0 0) e in omega arith)

fetch_block-KeepsRecords_example :
    get_or (fetch_block digest host 1 two_blocks).1.hashes 0 no_digest
    ≡ get_or two_blocks.hashes 0 no_digest
fetch_block-KeepsRecords_example =
    fetch_block-KeepsRecords digest host 1 two_blocks 0 first_recorded

fetch_block-Consistent_example : Consistent digest (fetch_block digest host 1 two_blocks).1
fetch_block-Consistent_example =
    fetch_block-Consistent digest host 1 two_blocks two_blocks-Consistent refl

failed_fetch-stale_example :
    let failed = (fetch_block digest failing_host 1 two_blocks).1 in
    (fetch_block digest host 0 failed ≡ (pos 0, failed))
    × (failed.block_data ≡ overwrite (9 ∷ 9 ∷ 9 ∷ []) (clear_tail two_blocks 1))
    × (failed.hashes ≡ two_blocks.hashes)
failed_fetch-stale_example =
    failed_fetch-stale digest failing_host host 1 two_blocks (λ e. absurd (omega (arith, e)))
      (omega arith) refl

-- What is then served as the first block.
failed_fetch-clobbers :
    (fetch_block digest failing_host 1 two_blocks).1.block_data ≡ 9 ∷ 9 ∷ 9 ∷ 0 ∷ []
unfolding fetch_block fetch_from_host fetch_size is_partial clear_tail
failed_fetch-clobbers = refl

-- A session of a file of six bytes in blocks of 1024.
abbrev opened : FuseData
opened = record {
  file_size = 6;
  block_size = 1024;
  file_blocks = 1;
  uid = 0;
  gid = 0;
  curr_block = u32 - 1;
  block_data = replicate 1024 7;
  extra_block = replicate 1024 7;
  hashes = no_digest ∷ [];
}

opened-Holds : Holds digest small_file opened
unfolding open_session count_blocks
opened-Holds =
    open_session-Holds digest small_file 1024 0 0 (replicate 1024 7) (replicate 1024 7) opened
      (omega arith) refl refl

open_session-opens : open_session 6 1024 0 0 (replicate 1024 7) (replicate 1024 7) ≡ some opened
unfolding open_session count_blocks
open_session-opens = refl

open_session-Holds_example : Holds digest small_file opened
open_session-Holds_example =
    open_session-Holds digest small_file 1024 0 0 (replicate 1024 7) (replicate 1024 7) opened
      (omega arith) refl open_session-opens

fetch_block-Ready_example :
    Ready digest small_file 0 opened (fetch_block digest (sends small_file 1024) 0 opened)
fetch_block-Ready_example =
    fetch_block-Ready digest small_file 0 opened opened-Holds (omega arith) (omega arith)

read_package-Answered_example :
    Answered digest small_file 1024 2 100
      (read_package digest (sends small_file 1024) (sends small_file 1024) 2 100 opened)
read_package-Answered_example =
    read_package-Answered digest small_file 2 100 opened opened-Holds (omega arith) (omega arith)
      (omega arith)

abbrev kernel : Kernel
kernel = record {
  kernel_version = 7;
  kernel_minor_version = 26;
  init_out_size = 64;
  compat_22_init_out_size = 24;
  root_id = 1;
}

abbrev incoming : List Incoming
incoming =
    too_short
    ∷ request
        (record {
          unique = 1;
          nodeid = 1;
          operation = fuse_lookup (codes "package.zip" ++ (0 ∷ []));
        })
        host host
    ∷ request (record { unique = 2; nodeid = 2; operation = fuse_read 2 100 }) host host
    ∷ request
        (record { unique = 3; nodeid = 1; operation = fuse_lookup (codes "exit" ++ (0 ∷ [])) }) host
        host
    ∷ request (record { unique = 4; nodeid = 2; operation = fuse_flush }) host host
    ∷ []
  where
    host : Provider
    host = sends small_file 1024

serve-Answers_example :
    Answers.Answers kernel digest small_file
      (Answers.handled kernel digest small_file incoming)
      (serve kernel digest incoming opened)
serve-Answers_example =
    Answers.serve-Answers kernel digest small_file incoming opened opened-Holds (omega arith) (
      refl,
      refl,
      tt,
      (refl, refl, (omega arith, omega arith), (refl, refl, tt, (refl, refl, tt, tt))),
    )

block_one_differs : digest (fetch_block digest host 1 two_blocks).1.block_data ≢ no_digest
unfolding fetch_block fetch_from_host fetch_size is_partial clear_tail check_hash
block_one_differs e =
    absurd (let zero_head : 17 ≡ 0 = ap (λ (d : List ℕ). get_or d 0 0) e in omega arith)

block_one-succeeds : (fetch_block digest host 1 two_blocks).0 ≡ pos 0
unfolding fetch_block fetch_from_host fetch_size is_partial clear_tail check_hash
block_one-succeeds = refl

-- Another block is fetched in between.
abbrev between : FuseData
between = (fetch_block digest host 0 (fetch_block digest host 1 two_blocks).1).1

block_one-again : (fetch_block digest host 1 between).0 ≡ pos 0
unfolding fetch_block fetch_from_host fetch_size is_partial clear_tail check_hash
block_one-again = refl

fetch_block_stable_example :
    digest (fetch_block digest host 1 between).1.block_data
    ≡ digest (fetch_block digest host 1 two_blocks).1.block_data
fetch_block_stable_example =
    fetch_block_stable digest host host 1 two_blocks between two_blocks-Consistent (omega arith)
      refl block_one-succeeds block_one_differs (Fetches.fetch host 0 Fetches.start refl) refl
      block_one-again
