-- ===== src/Fuse/Content.antt =====
-- fuse_sideload.cpp: what `fetch_block` puts into the cache when the host sends the file as it is.
use recovery.Base.{
  ℕ, ◌+◌, ◌-◌, ◌*◌, ◌≤◌, ◌<◌, ◌≡◌, ◌⊎◌, sym, ap, ◌∙◌, ltb, ◌++◌, List, length, take, drop,
  replicate, get_or, length-append, length-take, length-drop, length-replicate, get_or-append_left,
  get_or-append_right, get_or-take, get_or-drop, get_or-replicate, get_or_past, drop-append_of_eq,
  take_all, drop_all, arith, Bool-cases, inl, inr, ltb-false, ltb→lt,
}
use recovery.Base.Int.{pos}
use recovery.Fuse.Defs.{
  u32, FuseData, Provider, Sha256, no_digest, overwrite, is_partial, fetch_size, clear_tail,
  block_start,
}

-- A block of the file, with zeros behind the file's end.
abbrev pub file_part : List ℕ → ℕ → ℕ → List ℕ
file_part file bs b = take bs (drop (b * bs) file)

unfoldable pub padded : List ℕ → ℕ → ℕ → List ℕ
padded file bs b = file_part file bs b ++ replicate (bs - length (file_part file bs b)) 0

pub length-padded : (file : List ℕ) (bs b : ℕ) → length (padded file bs b) ≡ bs
unfolding padded
length-padded file bs b = omega (
  arith,
  length-append (file_part file bs b) (replicate (bs - length (file_part file bs b)) 0),
  length-take bs (drop (b * bs) file),
  length-replicate (bs - length (file_part file bs b)) (let z : ℕ = 0 in z),
)

-- Each byte of a block is the file's byte at that place, or zero behind the file's end.
pub get_or-padded :
    (file : List ℕ) (bs b k : ℕ)
    → k < bs
    → get_or (padded file bs b) k 0 ≡ get_or file (b * bs + k) 0
unfolding padded
get_or-padded file bs b k h = elim (Bool-cases (ltb k (length (file_part file bs b)))) [
  | inl inside ↦
      get_or-append_left (file_part file bs b) _ k 0 (ltb→lt _ _ inside)
      ∙ get_or-take bs (drop (b * bs) file) k 0 h
      ∙ get_or-drop (b * bs) file k 0
  | inr past ↦
      let le = ltb-false _ _ past in
      let e : k ≡ length (file_part file bs b) + (k - length (file_part file bs b)) = omega arith in
      let far : length file ≤ b * bs + k =
        omega (arith, length-take bs (drop (b * bs) file), length-drop (b * bs) file) in
      ap (λ (i : ℕ). get_or (padded file bs b) i 0) e
      ∙ get_or-append_right (file_part file bs b) _ _ 0
      ∙ get_or-replicate (bs - length (file_part file bs b)) (k - length (file_part file bs b)) 0
      ∙ sym (get_or_past file (b * bs + k) 0 far)
]

-- The host sends what the file holds.
abbrev pub sends : List ℕ → ℕ → Provider
sends file bs block size = record { result = pos 0; written = take size (drop (block * bs) file) }

-- The cache and the digests belong to the file.
pub record Holds (sha256 : Sha256) (file : List ℕ) (fd : FuseData) : Type 0 where
  pub size : fd.file_size ≡ length file
  pub positive : 0 < fd.block_size
  pub covered : length file ≤ fd.file_blocks * fd.block_size
  pub needed : (b : ℕ) → b < fd.file_blocks → b * fd.block_size < length file
  pub sized : length fd.hashes ≡ fd.file_blocks
  pub buffer : length fd.block_data ≡ fd.block_size
  pub cached : (fd.curr_block ≡ u32 - 1) ⊎ (fd.block_data ≡ padded file fd.block_size fd.curr_block)
  pub recorded :
      (b : ℕ)
      → (get_or fd.hashes b no_digest ≡ no_digest)
        ⊎ (get_or fd.hashes b no_digest ≡ sha256 (padded file fd.block_size b))

-- A short answer over a cleared tail, and a full one.
short_buffer :
    (sent buffer : List ℕ) (bs : ℕ)
    → length sent ≤ bs
    → length buffer ≡ bs
    → overwrite
        (take (length sent) sent)
        (take (length sent) buffer ++ replicate (bs - length sent) 0)
      ≡ take bs sent ++ replicate (bs - length (take bs sent)) 0
short_buffer sent buffer bs h e =
    rw (take_all (length sent) sent (omega arith), take_all bs sent h)
      (ap (λ t. sent ++ t)
        (drop-append_of_eq (length sent) (take (length sent) buffer) _
          (omega (arith, length-take (length sent) buffer))))

full_buffer :
    (sent buffer : List ℕ) (bs : ℕ)
    → bs ≤ length sent
    → length buffer ≡ bs
    → overwrite (take bs sent) buffer ≡ take bs sent ++ replicate (bs - length (take bs sent)) 0
full_buffer sent buffer bs h e =
    let l : length (take bs sent) ≡ bs = omega (arith, length-take bs sent) in
    let z : bs - bs ≡ 0 = omega arith in rw (l, z, drop_all bs buffer (omega arith))

module _ (sha256 : Sha256) (file : List ℕ) where
  -- The buffer after the host's answer.
  pub host_buffer :
      (b : ℕ) (fd : FuseData)
      → Holds sha256 file fd
      → b < fd.file_blocks
      → b * fd.block_size < u32
      → overwrite (take (fetch_size fd b) (drop (b * fd.block_size) file)) (clear_tail fd b)
        ≡ padded file fd.block_size b
  unfolding fetch_size clear_tail is_partial padded
  host_buffer b fd h inside small =
      let start : block_start fd b ≡ b * fd.block_size = omega arith in
      let sent = drop (b * fd.block_size) file in
      let left : length sent ≡ length file - b * fd.block_size =
        length-drop (b * fd.block_size) file in
      elim (Bool-cases (ltb fd.file_size (b * fd.block_size + fd.block_size))) [
        | inl partial ↦
            let fs : fd.file_size - b * fd.block_size ≡ length sent = omega (arith, h.size, left) in
            rw start (
              rw partial (
                rw fs (
                  short_buffer sent fd.block_data fd.block_size
                    (omega (arith, ltb→lt _ _ partial, left, h.size)) h.buffer)))
        | inr whole ↦ rw start (
            rw whole (
              full_buffer sent fd.block_data fd.block_size
                (omega (arith, ltb-false _ _ whole, left, h.size, h.positive)) h.buffer))
      ]
