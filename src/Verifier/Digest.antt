-- ===== src/Verifier/Digest.antt =====
-- verifier.cpp: the digests that `verify_file` computes piece by piece.
use recovery.Base.{
  ℕ, suc, zero, ◌+◌, ◌-◌, ◌≤◌, ◌<◌, ◌≡◌, refl, sym, ap, ◌∙◌, ltb, min, Bool, true, false, ◌++◌,
  List, [], take, drop, arith, Bool-cases, inl, inr, take-add, drop-drop, ltb-false, ltb→lt,
}
use recovery.Verifier.Defs.{
  Crypto, Certificate, Digests, needs, update_both, hash_loop, digests, signed_len,
  sha_digest_length, sha256_digest_length, chunk_size,
}

module _ (crypto : Crypto) where
  open crypto use {Key, sha1, sha256}

  update_both-append :
      (a b : Bool) (d : Digests crypto) (xs ys : List ℕ)
      → update_both crypto a b (update_both crypto a b d xs) ys
        ≡ update_both crypto a b d (xs ++ ys)
  update_both-append true true d xs ys =
      cc (sha1.update-append d.sha1_ctx xs ys, sha256.update-append d.sha256_ctx xs ys)
  update_both-append true false d xs ys = cc (sha1.update-append d.sha1_ctx xs ys)
  update_both-append false true d xs ys = cc (sha256.update-append d.sha256_ctx xs ys)
  update_both-append false false d xs ys = refl

  update_both_nil : (a b : Bool) (d : Digests crypto) → update_both crypto a b d [] ≡ d
  update_both_nil true true d = cc (sha1.update_nil d.sha1_ctx, sha256.update_nil d.sha256_ctx)
  update_both_nil true false d = cc (sha1.update_nil d.sha1_ctx)
  update_both_nil false true d = cc (sha256.update_nil d.sha256_ctx)
  update_both_nil false false d = refl

  -- A piece and what is left behind it are together the bytes that were left before.
  piece-append :
      (size so_far signed : ℕ) (addr : List ℕ)
      → size ≤ signed - so_far
      → take size (drop so_far addr) ++ take (signed - (so_far + size)) (drop (so_far + size) addr)
        ≡ take (signed - so_far) (drop so_far addr)
  piece-append size so_far signed addr h =
      let e : signed - so_far ≡ size + (signed - (so_far + size)) = omega arith in
      rw (← drop-drop so_far size addr, e)
        (sym (take-add size (signed - (so_far + size)) (drop so_far addr)))

  -- With fuel for every byte the loop hashes the bytes from `so_far` on, whatever the piece size.
  hash_loop-eq :
      (chunk : ℕ) (a b : Bool) (fuel : ℕ) (addr : List ℕ) (signed so_far : ℕ) (d : Digests crypto)
      → 0 < chunk
      → signed - so_far ≤ fuel
      → hash_loop crypto chunk a b fuel addr signed so_far d
        ≡ update_both crypto a b d (take (signed - so_far) (drop so_far addr))
  unfolding hash_loop
  hash_loop-eq chunk a b zero addr signed so_far d c h =
      rw (let e : signed - so_far ≡ 0 = omega arith in e) (sym (update_both_nil a b d))
  hash_loop-eq chunk a b (suc fuel) addr signed so_far d c h =
      let size = min (signed - so_far) chunk in
      let piece = take size (drop so_far addr) in
      elim (Bool-cases (ltb so_far signed)) [
        | inl more ↦ rw more (
            hash_loop-eq chunk a b fuel addr signed (so_far + size) (update_both crypto a b d piece)
              c (omega (arith, ltb→lt so_far signed more))
            ∙ update_both-append a b d piece _
            ∙ ap (update_both crypto a b d) (piece-append size so_far signed addr (omega arith)))
        | inr done ↦
            let e : signed - so_far ≡ 0 = omega (arith, ltb-false so_far signed done) in
            rw (done, e) (sym (update_both_nil a b d))
      ]

  -- The digest contexts that the keys are tried against hold exactly the signed bytes, for each kind
  -- of digest that some key wants.
  pub digests-eq :
      (addr : List ℕ) (keys : List (Certificate Key))
      → digests crypto addr keys
        ≡ update_both crypto
            (needs crypto sha_digest_length keys)
            (needs crypto sha256_digest_length keys)
            (record { sha1_ctx = sha1.init; sha256_ctx = sha256.init })
            (take (signed_len addr) addr)
  unfolding digests
  digests-eq addr keys =
      hash_loop-eq chunk_size _ _ (signed_len addr) addr (signed_len addr) 0 _ (omega arith)
        (omega arith)
      ∙ rw (let e : signed_len addr - 0 ≡ signed_len addr = omega arith in e)
