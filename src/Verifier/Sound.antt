-- ===== src/Verifier/Sound.antt =====
-- verifier.cpp: what VERIFY_SUCCESS of `verify_file` means.
use recovery.Base.{
  ℕ, ◌+◌, ◌-◌, ◌≤◌, ◌<◌, ◌≡◌, sym, ◌∙◌, ◌==◌, Bool, true, false, List, [], ◌∷◌, Option, some, ◌⊎◌,
  inl, inr, length, length-drop, take, drop, drop-drop, arith, Bool-cases, ltb-false,
}
use recovery.Verifier.Pkcs7.{Finds, nothing, part, read_pkcs7-Finds}
use recovery.Verifier.Checked.{guarded, verify_file-eq}
use recovery.Verifier.Defs.{
  Crypto, Certificate, key_type_rsa, key_type_ec, nid_sha1, nid_sha256, Digests, needs, update_both,
  digests, signed_len, signature_start, footer_passes, footer_size, accepts, any_accepts, try_keys,
  verify_file, sha_digest_length, sha256_digest_length,
}
use recovery.Verifier.Digest.{digests-eq}

abbrev pub Exists : {A : Type 0} → (A → Type 0) → List A → Type 0
Exists P [] = ⊥
Exists P (x ∷ xs) = P x ⊎ Exists P xs

module _ (crypto : Crypto) where
  open crypto use {Key, sha1, sha256, rsa_verify, ecdsa_verify}

  abbrev pub sha1_of : List ℕ → List ℕ
  sha1_of content = sha1.final (sha1.update sha1.init content)

  abbrev pub sha256_of : List ℕ → List ℕ
  sha256_of content = sha256.final (sha256.update sha256.init content)

  -- The signature fits the content under the certificate's key and digest.
  abbrev pub Signs : List ℕ → List ℕ → Certificate Key → Type 0
  Signs content sig cert =
      (cert.hash_len ≡ 20)
        × (cert.key_type ≡ key_type_rsa)
        × (rsa_verify nid_sha1 (sha1_of content) sig cert.key ≡ true)
      ⊎ (cert.hash_len ≡ 32)
        × (cert.key_type ≡ key_type_rsa)
        × (rsa_verify nid_sha256 (sha256_of content) sig cert.key ≡ true)
      ⊎ (cert.hash_len ≡ 32)
        × (cert.key_type ≡ key_type_ec)
        × (ecdsa_verify (sha256_of content) sig cert.key ≡ true)

  module _ (content : List ℕ) (sig : List ℕ) where
    abbrev both : Bool → Bool → Digests crypto
    both a b =
        update_both crypto a b (record { sha1_ctx = sha1.init; sha256_ctx = sha256.init }) content

    accepts-Signs :
        (a b : Bool) (cert : Certificate Key)
        → (cert.hash_len == sha_digest_length ≡ true → a ≡ true)
        → (cert.hash_len == sha256_digest_length ≡ true → b ≡ true)
        → accepts crypto (both a b) sig cert ≡ true
        → Signs content sig cert
    unfolding accepts
    accepts-Signs a b cert p q e = ground arith

    -- Hashing only what some key wants is enough: a key that is accepted wants its digest.
    any_accepts-Exists :
        (a b : Bool) (keys : List (Certificate Key))
        → (needs crypto sha_digest_length keys ≡ true → a ≡ true)
        → (needs crypto sha256_digest_length keys ≡ true → b ≡ true)
        → any_accepts crypto (both a b) sig keys ≡ true
        → Exists (Signs content sig) keys
    unfolding any_accepts needs
    any_accepts-Exists a b [] p q e = cc
    any_accepts-Exists a b (cert ∷ keys) p q e =
        elim (Bool-cases (accepts crypto (both a b) sig cert)) [
          | inl yes_it_does ↦
              inl
                (accepts-Signs a b cert (λ h. p (ground arith)) (λ h. q (ground arith)) yes_it_does)
          | inr not_it ↦ inr (
              any_accepts-Exists a b keys (λ h. p (ground arith)) (λ h. q (ground arith))
                (ground arith))
        ]

  -- What was found when a package is accepted: a nonempty signature that stands between the place
  -- that the footer gives and the footer, and a key that it fits, over the bytes up to the comment's
  -- length.
  pub record Verified (addr : List ℕ) (keys : List (Certificate Key)) : Type 0 where
    pub passes : footer_passes addr ≡ true
    pub in_package : signature_start addr ≤ length addr
    pub from : ℕ
    pub count : ℕ
    pub positive : 0 < count
    pub behind_start : length addr - signature_start addr ≤ from
    pub before_footer : from + count ≤ length addr - 6
    pub signed : Exists (Signs (take (signed_len addr) addr) (take count (drop from addr))) keys

  guarded-eq-true :
      (passes outside : Bool) (result : Option Bool)
      → guarded passes outside result ≡ some true
      → (passes ≡ true) × (outside ≡ false) × (result ≡ some true)
  guarded-eq-true passes outside result e = ground arith

  -- The keys accept a signature that was found.
  try_keys-Exists :
      (addr sig : List ℕ) (keys : List (Certificate Key))
      → try_keys crypto addr keys (some (some sig)) ≡ some true
      → Exists (Signs (take (signed_len addr) addr) sig) keys
  try_keys-Exists addr sig keys e =
      any_accepts-Exists (take (signed_len addr) addr) sig _ _ keys (λ h. h) (λ h. h)
        (rw digests-eq at
          (let e' : any_accepts crypto (digests crypto addr keys) sig keys ≡ true = cc in e'))

  found-Verified :
      (addr : List ℕ) (keys : List (Certificate Key))
      → footer_passes addr ≡ true
      → signature_start addr ≤ length addr
      → (fits : signature_start addr - footer_size
          ≤ length (drop (length addr - signature_start addr) addr))
      → {r : Option (Option (List ℕ))}
      → Finds
          (drop (length addr - signature_start addr) addr)
          (signature_start addr - footer_size)
          fits
          r
      → try_keys crypto addr keys r ≡ some true
      → Verified addr keys
  found-Verified addr keys passes inside fits nothing e = cc
  found-Verified addr keys passes inside fits (part {bytes} found) e =
      let start = length addr - signature_start addr in
      record {
        passes = passes;
        in_package = inside;
        from = start + found.from;
        count = found.count;
        positive = found.positive;
        behind_start = omega arith;
        before_footer = omega (arith, found.within, found.positive);
        signed =
            rw (← drop-drop start found.from addr)
              (rw found.same at (try_keys-Exists addr bytes keys e));
      }

  -- VERIFY_SUCCESS is returned only if one of the keys signs exactly the bytes of the package up to
  -- the length of the archive's comment.
  pub verify_file_sound :
      (addr : List ℕ) (keys : List (Certificate Key))
      → verify_file crypto addr keys ≡ some true
      → Verified addr keys
  verify_file_sound addr keys e =
      let (passes, inside, tried) =
        guarded-eq-true (footer_passes addr) _ _ (sym (verify_file-eq crypto addr keys) ∙ e) in
      let start_le : signature_start addr ≤ length addr = ltb-false _ _ inside in
      let fits : signature_start addr - footer_size
          ≤ length (drop (length addr - signature_start addr) addr) =
        omega (arith, length-drop (length addr - signature_start addr) addr) in
      found-Verified addr keys passes start_le fits
        (read_pkcs7-Finds (drop (length addr - signature_start addr) addr)
          (signature_start addr - footer_size) fits)
        tried
