-- ===== src/Fuse/Faithful.antt =====
-- fuse_sideload.cpp: the block cache over a host that sends the file as it is.
use recovery.Base.{
  ℕ, suc, ◌-◌, ◌*◌, ◌≤◌, ◌<◌, ◌≡◌, ◌⊎◌, refl, ap, ◌∙◌, ◌==◌, leb, true, ◌++◌, List, [], length,
  take, drop, drop_all, replicate, get_or, set, get_or-set_self, get_or-set_ne, length-set, text_eq,
  text_eq_refl, arith, Bool-cases, inl, inr, ==_iff, leb→le,
}
use mathlib.Core.Path.{subst}
use native.Mathlib.Decide.{ℕ_discrete}
use native.Mathlib.Nat.{le_trans, mul-le-mul_right}
use recovery.Base.Int.{ℤ, pos}
use recovery.Fuse.Defs.{
  u32, FuseData, Sha256, no_digest, overwrite, fetch_size, clear_tail, check_hash, fetch_from_host,
  fetch_block,
}
use recovery.Fuse.Content.{padded, length-padded, sends, Holds, host_buffer}

module _ (sha256 : Sha256) (file : List ℕ) where
  -- The fetch succeeded, and the block is in the cache.
  pub record Ready (block : ℕ) (fd : FuseData) (r : ℤ × FuseData) : Type 0 where
    pub succeeds : r.0 ≡ pos 0
    pub data_read : r.1.block_data ≡ padded file fd.block_size block
    pub holds : Holds sha256 file r.1
    pub same_block_size : r.1.block_size ≡ fd.block_size
    pub same_extra : r.1.extra_block ≡ fd.extra_block

  check_hash-Ready :
      (b : ℕ) (fd : FuseData)
      → Holds sha256 file fd
      → fd.block_data ≡ padded file fd.block_size b
      → b < fd.file_blocks
      → Ready b fd (check_hash sha256 b fd)
  unfolding check_hash
  check_hash-Ready b fd h e l = elim (h.recorded b) [
    | inr known ↦
        rw
          (let same : text_eq (sha256 fd.block_data) (get_or fd.hashes b no_digest) ≡ true =
              rw (known, e) (text_eq_refl (sha256 (padded file fd.block_size b))) in
            same)
          (record {
            succeeds = refl;
            data_read = e;
            holds = h;
            same_block_size = refl;
            same_extra = refl;
          })
    | inl fresh ↦
        elim (Bool-cases (text_eq (sha256 fd.block_data) (get_or fd.hashes b no_digest))) [
          | inl same ↦ rw same (record {
            succeeds = refl;
            data_read = e;
            holds = h;
            same_block_size = refl;
            same_extra = refl;
          })
          | inr other ↦
              rw
                (
                  other,
                  let t : text_eq (get_or fd.hashes b no_digest) no_digest ≡ true = rw fresh in t,
                )
                (record {
                  succeeds = refl;
                  data_read = e;
                  holds = record {
                    size = h.size;
                    positive = h.positive;
                    covered = h.covered;
                    needed = h.needed;
                    sized = length-set fd.hashes b (sha256 fd.block_data) ∙ h.sized;
                    buffer = h.buffer;
                    cached = h.cached;
                    recorded = recorded;
                  };
                  same_block_size = refl;
                  same_extra = refl;
                })
        ]
  ]
    where
      recorded :
          (c : ℕ)
          → (get_or (set fd.hashes b (sha256 fd.block_data)) c no_digest ≡ no_digest)
            ⊎ (get_or (set fd.hashes b (sha256 fd.block_data)) c no_digest
                ≡ sha256 (padded file fd.block_size c))
      recorded c = elim (ℕ_discrete b c) [
        | yes same ↦ inr (
            rw (← same) (
              get_or-set_self fd.hashes b (sha256 fd.block_data) no_digest
                (omega (arith, h.sized, l))
              ∙ ap sha256 e))
        | no other ↦
            rw (get_or-set_ne fd.hashes b c (sha256 fd.block_data) no_digest other) (h.recorded c)
      ]

  padded_past : (bs b : ℕ) → length file ≤ b * bs → replicate bs 0 ≡ padded file bs b
  unfolding padded
  padded_past bs b h = rw (drop_all (b * bs) file h) (nil bs)
    where
      nil :
          (n : ℕ)
          → replicate {A = ℕ} n 0 ≡ take n [] ++ replicate (n - length (take {A = ℕ} n [])) 0
      nil ℕ.zero = refl
      nil (suc n) = rw (let e : suc n - 0 ≡ suc n = omega arith in e)

  -- The state with another block in the cache still belongs to the file.
  with_block-Holds :
      (b : ℕ) (fd : FuseData)
      → Holds sha256 file fd
      → (data_of_b : List ℕ) → data_of_b ≡ padded file fd.block_size b
      → Holds sha256 file (record fd { block_data = data_of_b; curr_block = b })
  with_block-Holds b fd h d e = record {
    size = h.size;
    positive = h.positive;
    covered = h.covered;
    needed = h.needed;
    sized = h.sized;
    buffer = ap length e ∙ length-padded file fd.block_size b;
    cached = inr e;
    recorded = h.recorded;
  }

  cached_block :
      (b : ℕ) (fd : FuseData)
      → Holds sha256 file fd
      → b < u32 - 1
      → b ≡ fd.curr_block
      → fd.block_data ≡ padded file fd.block_size b
  cached_block b fd h top e = elim h.cached [
    | inl none_yet ↦ absurd (omega arith)
    | inr block ↦ rw e block
  ]

  -- From a faithful host every fetch of a block that starts below 4 GiB succeeds and caches the block's
  -- bytes, with zeros behind the end of the file.
  pub fetch_block-Ready :
      (b : ℕ) (fd : FuseData)
      → Holds sha256 file fd
      → b < u32 - 1
      → b * fd.block_size < u32
      → Ready b fd (fetch_block sha256 (sends file fd.block_size) b fd)
  unfolding fetch_block fetch_from_host
  fetch_block-Ready b fd h top small = elim (Bool-cases (b == fd.curr_block)) [
    | inl cached ↦ rw cached (record {
      succeeds = refl;
      data_read = cached_block b fd h top ((==_iff _ _).0 cached);
      holds = h;
      same_block_size = refl;
      same_extra = refl;
    })
    | inr other ↦ elim (Bool-cases (leb fd.file_blocks b)) [
      | inl past ↦
          rw (other, past)
            (record {
              succeeds = refl;
              data_read = zeros past;
              holds = with_block-Holds b fd h (replicate fd.block_size 0) (zeros past);
              same_block_size = refl;
              same_extra = refl;
            })
      | inr inside ↦ rw (other, inside) (from_host (ground arith))
    ]
  ]
    where
      zeros : leb fd.file_blocks b ≡ true → replicate fd.block_size 0 ≡ padded file fd.block_size b
      zeros past =
          padded_past fd.block_size b
            (le_trans h.covered (mul-le-mul_right fd.block_size (leb→le fd.file_blocks b past)))

      buffer : List ℕ
      buffer = overwrite (take (fetch_size fd b) (drop (b * fd.block_size) file)) (clear_tail fd b)

      from_host :
          b < fd.file_blocks
          → Ready b fd (check_hash sha256 b (record fd { block_data = buffer; curr_block = b }))
      from_host inside =
          let e = host_buffer sha256 file b fd h inside small in
          let r =
            check_hash-Ready b (record fd { block_data = buffer; curr_block = b })
              (with_block-Holds b fd h buffer e) e inside in
          record {
            succeeds = r.succeeds;
            data_read = r.data_read;
            holds = r.holds;
            same_block_size = r.same_block_size;
            same_extra = r.same_extra;
          }

  -- The same, where the host knows the block size.
  pub fetch_of_size-Ready :
      (bs b : ℕ) (fd : FuseData)
      → Holds sha256 file fd
      → fd.block_size ≡ bs
      → b < u32 - 1
      → b * bs < u32
      → Ready b fd (fetch_block sha256 (sends file bs) b fd)
  fetch_of_size-Ready bs b fd h e top small =
      subst (λ (n : ℕ). Ready b fd (fetch_block sha256 (sends file n) b fd)) e
        (fetch_block-Ready b fd h top (rw e small))
