-- ===== src/Fuse/Read.antt =====
-- fuse_sideload.cpp: reads of the package from a host that sends the file as it is.
use recovery.Base.{
  ℕ, ◌+◌, ◌-◌, ◌*◌, ◌/◌, ◌%◌, ◌^◌, ◌≤◌, ◌<◌, ◌≡◌, refl, ap, ◌∙◌, ltb, leb, ◌++◌, List, length, take,
  take-append_of_eq, drop, get_or, length-append, length-take, length-drop, get_or-append_left,
  get_or-append_right, get_or-take, get_or-drop, arith, Bool-cases, inl, inr, leb→le, ltb-false,
  ltb→lt,
}
use mathlib.Core.Path.{subst}
use recovery.Fuse.Defs.{
  u32, u64, FuseData, Sha256, overwrite, fetch_block, block_start, block_offset, read_across,
  read_package, Reply, bytes,
}
use recovery.Fuse.Content.{padded, length-padded, get_or-padded, sends, Holds}
use recovery.Fuse.Faithful.{fetch_of_size-Ready}

module _ (sha256 : Sha256) (file : List ℕ) where
  -- The bytes that a read of `size` bytes at `offset` is answered with: the file's, and zeros behind
  -- its end.
  pub record IsReply (offset size : ℕ) (reply : List ℕ) : Type 0 where
    pub full : length reply ≡ size
    pub each : (k : ℕ) → k < size → get_or reply k 0 ≡ get_or file (offset + k) 0

  -- A part of one block.
  slice-IsReply :
      (bs b start size : ℕ)
      → start + size ≤ bs
      → IsReply (b * bs + start) size (take size (drop start (padded file bs b)))
  slice-IsReply bs b start size h = record {
    full = omega (
      arith,
      length-take size (drop start (padded file bs b)),
      length-drop start (padded file bs b),
      length-padded file bs b,
    );
    each = λ k l.
        get_or-take size (drop start (padded file bs b)) k 0 l
        ∙ get_or-drop start (padded file bs b) k 0
        ∙ get_or-padded file bs b (start + k) (omega arith)
        ∙ ap (λ (i : ℕ). get_or file i 0)
            (let e : b * bs + (start + k) ≡ b * bs + start + k = omega arith in e);
  }

  -- Two replies, the second where the first ends.
  append-IsReply :
      (offset m n : ℕ) (xs ys : List ℕ)
      → IsReply offset m xs
      → IsReply (offset + m) n ys
      → IsReply offset (m + n) (xs ++ ys)
  append-IsReply offset m n xs ys p q = record {
    full = omega (arith, length-append xs ys, p.full, q.full);
    each = λ k l. elim (Bool-cases (ltb k m)) [
      | inl first ↦
          get_or-append_left xs ys k 0 (omega (arith, p.full, ltb→lt k m first))
          ∙ p.each k (ltb→lt k m first)
      | inr second ↦
          let le : m ≤ k = ltb-false k m second in
          let e : k ≡ length xs + (k - m) = omega (arith, p.full) in
          ap (λ (i : ℕ). get_or (xs ++ ys) i 0) e
          ∙ get_or-append_right xs ys (k - m) 0
          ∙ q.each (k - m) (omega arith)
          ∙ ap (λ (i : ℕ). get_or file i 0)
              (let e' : offset + m + (k - m) ≡ offset + k = omega arith in e')
    ];
  }

  -- The answer to a read, with the state that it leaves.
  pub record Answered (bs offset size : ℕ) (r : Reply × FuseData) : Type 0 where
    pub reply : List ℕ
    pub sent : r.0 ≡ bytes reply
    pub right : IsReply offset size reply
    pub holds : Holds sha256 file r.1
    pub same_block_size : r.1.block_size ≡ bs

  -- The end of one block and the front of the next.
  abbrev pieces : ℕ → ℕ → ℕ → ℕ → List ℕ
  pieces bs b start size =
      take (bs - start) (drop start (padded file bs b))
      ++ take (size - (bs - start)) (padded file bs (b + 1))

  pieces-IsReply :
      (bs b start size : ℕ)
      → start < bs
      → size ≤ bs
      → bs < size + start
      → IsReply (b * bs + start) size (pieces bs b start size)
  pieces-IsReply bs b start size h fits l =
      let place : (b + 1) * bs + 0 ≡ b * bs + start + (bs - start) = omega arith in
      let total : bs - start + (size - (bs - start)) ≡ size = omega arith in
      let second =
        subst
          (λ (o : ℕ).
            IsReply o (size - (bs - start)) (take (size - (bs - start)) (padded file bs (b + 1))))
          place (slice-IsReply bs (b + 1) 0 (size - (bs - start)) (omega arith)) in
      subst (λ (n : ℕ). IsReply (b * bs + start) n (pieces bs b start size)) total
        (append-IsReply (b * bs + start) (bs - start) (size - (bs - start)) _ _
          (slice-IsReply bs b start (bs - start) (omega arith)) second)

  with_extra-Holds :
      (fd : FuseData) (extra : List ℕ)
      → Holds sha256 file fd
      → Holds sha256 file (record fd { extra_block = extra })
  with_extra-Holds fd extra h = record {
    size = h.size;
    positive = h.positive;
    covered = h.covered;
    needed = h.needed;
    sized = h.sized;
    buffer = h.buffer;
    cached = h.cached;
    recorded = h.recorded;
  }

  -- A read that ends in the next block.
  read_across-Answered :
      (bs b start size : ℕ) (fd : FuseData)
      → Holds sha256 file fd
      → fd.block_size ≡ bs
      → fd.block_data ≡ padded file bs b
      → start < bs
      → size ≤ bs
      → bs < size + start
      → b + 1 < u32 - 1
      → (b + 1) * bs < u32
      → Answered bs (b * bs + start) size (read_across sha256 (sends file bs) b start size fd)
  unfolding read_across
  read_across-Answered bs b start size fd h e d s1 s2 s3 top low =
      let head = take (fd.block_size - start) (drop start fd.block_data) in
      let next = record fd { extra_block = overwrite head fd.extra_block } in
      let wrap : (b + 1) % u32 ≡ b + 1 = omega arith in
      let fetched = fetch_block sha256 (sends file bs) (b + 1) next in
      let r =
        fetch_of_size-Ready sha256 file bs (b + 1) next
          (with_extra-Holds fd (overwrite head fd.extra_block) h) e top low in
      let head_length : length head ≡ fd.block_size - start = omega (
        arith,
        length-take (fd.block_size - start) (drop start fd.block_data),
        length-drop start fd.block_data,
        h.buffer,
      ) in
      let reply =
        take (fd.block_size - start) fetched.1.extra_block
        ++ take (size - (fd.block_size - start)) fetched.1.block_data in
      let first : take (fd.block_size - start) fetched.1.extra_block ≡ head =
        rw r.same_extra (take-append_of_eq (fd.block_size - start) head _ head_length) in
      let joined : reply ≡ pieces bs b start size = rw (first, r.data_read, d, e) in
      rw wrap (
        rw r.succeeds (record {
          reply = reply;
          sent = refl;
          right = rw joined (pieces-IsReply bs b start size s1 s2 s3);
          holds = r.holds;
          same_block_size = r.same_block_size ∙ e;
        }))

  -- A read of at most a block, at a place well below 4 GiB, from a faithful host: it is answered with
  -- exactly the bytes of the file there, padded with zeros, and the cache stays right, so that the next
  -- read is answered so too.
  pub read_package-Answered :
      (offset size : ℕ) (fd : FuseData)
      → Holds sha256 file fd
      → 1024 ≤ fd.block_size
      → size ≤ fd.block_size
      → offset + 2 * fd.block_size ≤ u32
      → Answered fd.block_size offset size
          (read_package sha256 (sends file fd.block_size) (sends file fd.block_size) offset size fd)
  unfolding read_package read_across block_offset
  read_package-Answered offset size fd h big small low =
      let bs = fd.block_size in
      let b = offset / bs in
      let start = offset % bs in
      let e1 : b * bs + start ≡ offset = omega arith in
      let e2 : start < bs = omega arith in
      let b_small : b ≤ 2 ^ 22 = grind arith in
      let block : offset / bs % u32 ≡ b = omega arith in
      let begins : block_start fd b ≡ b * bs = omega arith in
      let within : (offset + u64 - b * bs) % u64 % u32 ≡ start = omega arith in
      let r = fetch_of_size-Ready sha256 file bs b fd h refl (omega arith) (omega arith) in
      let fd' = (fetch_block sha256 (sends file bs) b fd).1 in
      rw block (
        rw begins (
          rw within (
            rw r.succeeds (elim (Bool-cases (leb ((size + start) % u32) bs)) [
              | inl one ↦
                  let fits : start + size ≤ bs = omega (arith, leb→le _ _ one) in
                  rw one (record {
                    reply = take size (drop start fd'.block_data);
                    sent = refl;
                    right = rw r.data_read (
                        subst
                          (λ (o : ℕ). IsReply o size (take size (drop start (padded file bs b)))) e1
                          (slice-IsReply bs b start size fits));
                    holds = r.holds;
                    same_block_size = r.same_block_size;
                  })
              | inr two ↦
                  let spills : bs < size + start = ground arith in
                  rw two (
                    subst
                      (λ (o : ℕ).
                        Answered bs o size (read_across sha256 (sends file bs) b start size fd'))
                      e1
                      (read_across-Answered bs b start size fd' r.holds r.same_block_size
                        r.data_read e2 small spills (omega arith) (omega arith)))
            ]))))
