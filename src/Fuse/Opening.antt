-- ===== src/Fuse/Opening.antt =====
-- fuse_sideload.cpp: the state with which the session starts.
use recovery.Base.{
  ℕ, suc, zero, ◌+◌, ◌-◌, ◌*◌, ◌/◌, ◌%◌, ◌^◌, ◌≤◌, ◌<◌, ◌≡◌, ltb, List, length, replicate, none,
  some, refl, arith, Bool-cases, inl, inr, ltb-false, length-replicate, get_or-replicate,
}
use mathlib.Core.Option.{some-injective}
use mathlib.Core.Path.{subst}
use native.Mathlib.Nat.{mul-le-mul_right}
use recovery.Fuse.Defs.{u32, FuseData, Sha256, no_digest}
use recovery.Fuse.Content.{Holds}
use recovery.Fuse.Session.{open_session, count_blocks}

count_blocks-covers :
    (n bs : ℕ)
    → 1024 ≤ bs
    → n ≤ 1024 * (u32 - 1)
    → (n ≤ count_blocks n bs * bs) × ((b : ℕ) → b < count_blocks n bs → b * bs < n)
unfolding count_blocks
count_blocks-covers zero bs big low = (omega arith, λ b l. omega arith)
count_blocks-covers (suc n) bs big low =
    let q = n / bs in
    let r = n % bs in
    let split : q * bs + r ≡ n = omega arith in
    let short : r < bs = omega arith in
    let few : q ≤ n / 1024 = grind arith in
    let wrap : (q + 1) % u32 ≡ q + 1 = omega arith in
    let e : count_blocks (suc n) bs ≡ q + 1 = ground arith in
    rw e (
      omega arith,
      λ b l.
          let below : b ≤ q = omega arith in
          let start : b * bs ≤ q * bs = mul-le-mul_right bs below in omega arith,
    )

-- A session that opens with a file of at most 1024 * (2^32 - 1) bytes, and with two buffers of the block
-- size, has a state that belongs to the file: the blocks cover it, none is wholly behind its end,
-- nothing is cached and no hash is recorded.
pub open_session-Holds :
    (sha256 : Sha256) (file : List ℕ) (block_size uid gid : ℕ) (block_data extra_block : List ℕ)
    (fd : FuseData)
    → length file ≤ 1024 * (u32 - 1)
    → length block_data ≡ block_size
    → open_session (length file) block_size uid gid block_data extra_block ≡ some fd
    → Holds sha256 file fd
unfolding open_session
open_session-Holds sha256 file bs uid gid block_data extra_block fd low sized opened =
    elim (Bool-cases (ltb bs 1024)) [
      | inl small ↦ absurd (let no : none ≡ some fd = rw small at (opened) in cc)
      | inr big ↦ elim (Bool-cases (ltb (2 ^ 22) bs)) [
        | inl large ↦ absurd (let no : none ≡ some fd = rw (big, large) at (opened) in cc)
        | inr fits ↦ elim (Bool-cases (ltb (2 ^ 18) (count_blocks (length file) bs))) [
          | inl many ↦ absurd (let no : none ≡ some fd = rw (big, fits, many) at (opened) in cc)
          | inr few ↦
              let e = some-injective _ _ (rw (big, fits, few) at (opened)) in
              subst (λ (s : FuseData). Holds sha256 file s) e (start (ltb-false bs 1024 big))
        ]
      ]
    ]
  where
    start :
        1024 ≤ bs
        → Holds sha256 file (record {
          file_size = length file;
          block_size = bs;
          file_blocks = count_blocks (length file) bs;
          uid = uid;
          gid = gid;
          curr_block = u32 - 1;
          block_data = block_data;
          extra_block = extra_block;
          hashes = replicate (count_blocks (length file) bs) no_digest;
        })
    start big = record {
      size = refl;
      positive = omega arith;
      covered = (count_blocks-covers (length file) bs big low).0;
      needed = (count_blocks-covers (length file) bs big low).1;
      sized = length-replicate (count_blocks (length file) bs) no_digest;
      buffer = sized;
      cached = inl refl;
      recorded = λ b. inl (get_or-replicate (count_blocks (length file) bs) b no_digest);
    }
