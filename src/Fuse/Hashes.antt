-- ===== src/Fuse/Hashes.antt =====
-- fuse_sideload.cpp: the invariant that the file's header states. Each read of a block gives the bytes
-- of the first read, as far as SHA-256 tells bytes apart.
use recovery.Base.{
  ℕ, ◌<◌, ◌≡◌, ◌≢◌, refl, sym, ap, ◌∙◌, ◌==◌, leb, false, length, get_or, length-set,
  get_or-set_self, get_or-set_ne, text_eq, text_eq_iff, arith, Bool-cases, inl, inr, ==_iff, leb→le,
}
use recovery.Base.Int.{pos}
use recovery.Fuse.Defs.{
  u32, FuseData, Provider, Sha256, is_negative, no_digest, fetch_size, check_hash, fetch_from_host,
  fetch_block,
}

-- A cached block of the file has the digest that is on record for it.
pub record Consistent (sha256 : Sha256) (fd : FuseData) : Type 0 where
  pub blocks_fit : fd.file_blocks < u32
  pub sized : length fd.hashes ≡ fd.file_blocks
  pub cached :
      fd.curr_block < fd.file_blocks
      → sha256 fd.block_data ≡ get_or fd.hashes fd.curr_block no_digest

-- The host did not report a failure for the block, should it be asked.
abbrev pub Answers : Provider → ℕ → FuseData → Type 0
Answers read_block block fd = is_negative (read_block block (fetch_size fd block)).result ≡ false

module _ (sha256 : Sha256) where
  check_hash-Consistent :
      (block : ℕ) (fd : FuseData)
      → fd.file_blocks < u32
      → length fd.hashes ≡ fd.file_blocks
      → fd.curr_block ≡ block
      → block < fd.file_blocks
      → Consistent sha256 (check_hash sha256 block fd).1
  unfolding check_hash
  check_hash-Consistent block fd s l e h =
      elim (Bool-cases (text_eq (sha256 fd.block_data) (get_or fd.hashes block no_digest))) [
        | inl same ↦ rw same (record {
          blocks_fit = s;
          sized = l;
          cached =
              λ _. (text_eq_iff _ _).0 same ∙ ap (λ (b : ℕ). get_or fd.hashes b no_digest) (sym e);
        })
        | inr new ↦ elim (Bool-cases (text_eq (get_or fd.hashes block no_digest) no_digest)) [
          | inl first ↦
              rw (new, first)
                (record {
                  blocks_fit = s;
                  sized = length-set fd.hashes block (sha256 fd.block_data) ∙ l;
                  cached = λ _. rw e (
                      sym (
                        get_or-set_self fd.hashes block (sha256 fd.block_data) no_digest
                          (omega arith)));
                })
          | inr other ↦
              rw (new, other)
                (record { blocks_fit = s; sized = l; cached = λ p. absurd (omega arith) })
        ]
      ]

  -- A digest on record stays on record.
  abbrev pub KeepsRecords : FuseData → FuseData → Type 0
  KeepsRecords fd fd' =
      (b : ℕ)
      → get_or fd.hashes b no_digest ≢ no_digest
      → get_or fd'.hashes b no_digest ≡ get_or fd.hashes b no_digest

  check_hash-KeepsRecords :
      (block : ℕ) (fd : FuseData) → KeepsRecords fd (check_hash sha256 block fd).1
  unfolding check_hash
  check_hash-KeepsRecords block fd b known =
      elim (Bool-cases (text_eq (sha256 fd.block_data) (get_or fd.hashes block no_digest))) [
        | inl same ↦ rw same
        | inr new ↦ elim (Bool-cases (text_eq (get_or fd.hashes block no_digest) no_digest)) [
          | inl first ↦
              rw (new, first)
                (get_or-set_ne fd.hashes block b (sha256 fd.block_data) no_digest
                  (λ e. known (rw (← e) ((text_eq_iff _ _).0 first))))
          | inr other ↦ rw (new, other)
        ]
      ]

  fetch_from_host-KeepsRecords :
      (read_block : Provider) (block : ℕ) (fd : FuseData)
      → KeepsRecords fd (fetch_from_host sha256 read_block block fd).1
  unfolding fetch_from_host
  fetch_from_host-KeepsRecords read_block block fd b known =
      elim (Bool-cases (is_negative (read_block block (fetch_size fd block)).result)) [
        | inl failed ↦ rw failed
        | inr fine ↦ rw fine (check_hash-KeepsRecords block _ b known)
      ]

  -- Whatever the host does, a fetch changes no digest that is on record.
  pub fetch_block-KeepsRecords :
      (read_block : Provider) (block : ℕ) (fd : FuseData) (b : ℕ)
      → get_or fd.hashes b no_digest ≢ no_digest
      → get_or (fetch_block sha256 read_block block fd).1.hashes b no_digest
        ≡ get_or fd.hashes b no_digest
  unfolding fetch_block
  fetch_block-KeepsRecords read_block block fd b known =
      elim (Bool-cases (block == fd.curr_block)) [
        | inl cached ↦ rw cached
        | inr other ↦ elim (Bool-cases (leb fd.file_blocks block)) [
          | inl past ↦ rw (other, past)
          | inr inside ↦
              rw (other, inside) (fetch_from_host-KeepsRecords read_block block fd b known)
        ]
      ]

  fetch_from_host-Consistent :
      (read_block : Provider) (block : ℕ) (fd : FuseData)
      → Consistent sha256 fd
      → Answers read_block block fd
      → block < fd.file_blocks
      → Consistent sha256 (fetch_from_host sha256 read_block block fd).1
  unfolding fetch_from_host
  fetch_from_host-Consistent read_block block fd c a h =
      rw a (check_hash-Consistent block _ c.blocks_fit c.sized refl h)

  -- As long as the host reports no failure, the cache stays in accord with the digests on record.
  pub fetch_block-Consistent :
      (read_block : Provider) (block : ℕ) (fd : FuseData)
      → Consistent sha256 fd
      → Answers read_block block fd
      → Consistent sha256 (fetch_block sha256 read_block block fd).1
  unfolding fetch_block
  fetch_block-Consistent read_block block fd c a = elim (Bool-cases (block == fd.curr_block)) [
    | inl cached ↦ rw cached c
    | inr other ↦ elim (Bool-cases (leb fd.file_blocks block)) [
      | inl past ↦
          rw (other, past)
            (record {
              blocks_fit = c.blocks_fit;
              sized = c.sized;
              cached = λ p. absurd (omega (arith, leb→le fd.file_blocks block past));
            })
      | inr inside ↦
          rw (other, inside) (fetch_from_host-Consistent read_block block fd c a (ground arith))
    ]
  ]

  check_hash_curr :
      (block : ℕ) (fd : FuseData)
      → fd.curr_block ≡ block
      → (check_hash sha256 block fd).0 ≡ pos 0
      → (check_hash sha256 block fd).1.curr_block ≡ block
  unfolding check_hash
  check_hash_curr block fd e h = ground arith

  -- A fetch that succeeds leaves the block in the cache.
  pub fetch_block_curr :
      (read_block : Provider) (block : ℕ) (fd : FuseData)
      → Answers read_block block fd
      → (fetch_block sha256 read_block block fd).0 ≡ pos 0
      → (fetch_block sha256 read_block block fd).1.curr_block ≡ block
  unfolding fetch_block fetch_from_host
  fetch_block_curr read_block block fd a h = elim (Bool-cases (block == fd.curr_block)) [
    | inl cached ↦ rw cached (sym ((==_iff _ _).0 cached))
    | inr other ↦ elim (Bool-cases (leb fd.file_blocks block)) [
      | inl past ↦ rw (other, past)
      | inr inside ↦
          rw (other, inside, a) (check_hash_curr block _ refl (rw (other, inside, a) at h))
    ]
  ]
