-- ===== src/Verifier/Defs.antt =====
-- verifier.cpp: `verify_file`. The digests and the checks of a signature are BoringSSL's, so they are
-- parameters; progress bars and log lines are left out.
use recovery.Base.{
  ℕ, suc, zero, ◌+◌, ◌-◌, ◌*◌, ◌≡◌, ◌==◌, ltb, leb, min, Bool, true, false, not, ◌&&◌, ◌||◌, ◌++◌,
  List, [], ◌∷◌, Option, none, some, length, take, drop, get_or, get_elem?, if◌then◌else◌,
}
use recovery.Verifier.Pkcs7.{read_pkcs7}
use recovery.Verifier.Memory.{at_back, with_memory, with_byte, byte_is, marker_in, marker_among}

-- An incremental digest, as SHA1_Init, SHA1_Update and SHA1_Final are: bytes may be given in pieces.
pub record Hasher : Type 1 where
  pub Ctx : Type 0
  pub init : Ctx
  pub update : Ctx → List ℕ → Ctx
  pub final : Ctx → List ℕ
  pub update_nil : (c : Ctx) → update c [] ≡ c
  pub update-append : (c : Ctx) (a b : List ℕ) → update (update c a) b ≡ update c (a ++ b)

-- `Certificate::KeyType`.
pub data KeyType : Type 0 where
  key_type_rsa key_type_ec : KeyType

-- `NID_sha1` and `NID_sha256`.
pub data Nid : Type 0 where
  nid_sha1 nid_sha256 : Nid

-- What the code calls of BoringSSL.
pub record Crypto : Type 1 where
  pub Key : Type 0
  pub sha1 : Hasher
  pub sha256 : Hasher
  pub rsa_verify : Nid → List ℕ → List ℕ → Key → Bool
  pub ecdsa_verify : List ℕ → List ℕ → Key → Bool

-- `struct Certificate`; the two pointers are one key.
pub record Certificate (Key : Type 0) : Type 0 where
  pub hash_len : ℕ
  pub key_type : KeyType
  pub key : Key

abbrev pub sha_digest_length : ℕ
sha_digest_length = 20

abbrev pub sha256_digest_length : ℕ
sha256_digest_length = 32

abbrev pub footer_size : ℕ
footer_size = 6

abbrev pub eocd_header_size : ℕ
eocd_header_size = 22

-- `16 * MiB`.
abbrev pub chunk_size : ℕ
chunk_size = 16 * (1024 * 1024)

abbrev pub byte_at : List ℕ → ℕ → ℕ
byte_at bytes i = get_or bytes i 0

-- The end-of-central-directory magic, $50 $4b $05 $06, at the front of the bytes.
unfoldable pub is_marker : List ℕ → Bool
is_marker bytes =
    byte_at bytes 0 == 0x50
    && (byte_at bytes 1 == 0x4b && (byte_at bytes 2 == 0x05 && byte_at bytes 3 == 0x06))

-- The scan for another magic, over `rounds` places.
unfoldable pub has_marker : ℕ → List ℕ → Bool
has_marker zero bytes = false
has_marker (suc rounds) bytes = is_marker bytes || has_marker rounds (drop 1 bytes)

-- The quantities that the footer gives.
unfoldable pub footer : List ℕ → List ℕ
footer addr = drop (length addr - footer_size) addr

unfoldable pub comment_size : List ℕ → ℕ
comment_size addr = byte_at (footer addr) 4 + byte_at (footer addr) 5 * 256

unfoldable pub signature_start : List ℕ → ℕ
signature_start addr = byte_at (footer addr) 0 + byte_at (footer addr) 1 * 256

unfoldable pub eocd_size : List ℕ → ℕ
eocd_size addr = comment_size addr + eocd_header_size

unfoldable pub signed_len : List ℕ → ℕ
signed_len addr = length addr - eocd_size addr + eocd_header_size - 2

unfoldable pub eocd : List ℕ → List ℕ
eocd addr = drop (length addr - eocd_size addr) addr

-- The tests that come before any digest, in their order, where all that they read is there: `true` if
-- none of them fails.
unfoldable pub footer_passes : List ℕ → Bool
footer_passes addr =
    if ltb (length addr) footer_size
    then false
    else if not (byte_at (footer addr) 2 == 0xff) || not (byte_at (footer addr) 3 == 0xff)
    then false
    else if leb (signature_start addr) footer_size
    then false
    else if ltb (length addr) (eocd_size addr)
    then false
    else if not (is_marker (eocd addr))
    then false
    else not (has_marker (eocd_size addr - 3 - 4) (drop 4 (eocd addr)))

abbrev pub negated : Option Bool → Option Bool
negated none = none
negated (some found) = some (not found)

-- The record starts with its magic; no other may follow.
abbrev pub on_marker : ℕ → List ℕ → Option Bool → Option Bool
on_marker eocd_size eocd none = none
on_marker eocd_size eocd (some false) = some false
on_marker eocd_size eocd (some true) = negated (marker_among (eocd_size - 3 - 4) (drop 4 eocd))

-- The tests of the end-of-central-directory record.
unfoldable pub check_eocd : ℕ → List ℕ → Option Bool
check_eocd eocd_size eocd = on_marker eocd_size eocd (marker_in eocd)

-- The tests of the two sizes, and of the record that they point to.
unfoldable pub check_sizes : List ℕ → ℕ → ℕ → Option Bool
check_sizes addr signature_start eocd_size =
    if leb signature_start footer_size
    then some false
    else if ltb (length addr) eocd_size
    then some false
    else with_memory (check_eocd eocd_size) (at_back addr eocd_size)

-- The six bytes of the footer are read.
unfoldable pub check_words : List ℕ → List ℕ → Option Bool
check_words addr footer = with_byte (get_elem? footer 4) (λ c0.
    with_byte (get_elem? footer 5) (λ c1. with_byte (get_elem? footer 0) (λ s0.
      with_byte (get_elem? footer 1)
        (λ s1. check_sizes addr (s0 + s1 * 256) (c0 + c1 * 256 + eocd_header_size)))))

unfoldable pub check_mark : List ℕ → List ℕ → Option Bool
check_mark addr footer = byte_is footer 2 0xff (byte_is footer 3 0xff (check_words addr footer))

-- All tests that come before any digest, with their reads; none is a read outside of the package.
unfoldable pub check_footer : List ℕ → Option Bool
check_footer addr =
    if ltb (length addr) footer_size
    then some false
    else with_memory (check_mark addr) (at_back addr footer_size)

module _ (crypto : Crypto) where
  open crypto use {Key, sha1, sha256, rsa_verify, ecdsa_verify}

  -- The two digest contexts.
  pub record Digests : Type 0 where
    pub sha1_ctx : sha1.Ctx
    pub sha256_ctx : sha256.Ctx

  -- The loop over the keys that finds which digests are wanted.
  unfoldable pub needs : ℕ → List (Certificate Key) → Bool
  needs hash_len [] = false
  needs hash_len (key ∷ keys) = key.hash_len == hash_len || needs hash_len keys

  abbrev pub update_both : Bool → Bool → Digests → List ℕ → Digests
  update_both need_sha1 need_sha256 d bytes = record {
    sha1_ctx = if need_sha1 then sha1.update d.sha1_ctx bytes else d.sha1_ctx;
    sha256_ctx = if need_sha256 then sha256.update d.sha256_ctx bytes else d.sha256_ctx;
  }

  -- `while (so_far < signed_len)`, at most `fuel` rounds, in pieces of at most `chunk` bytes.
  unfoldable pub hash_loop : ℕ → Bool → Bool → ℕ → List ℕ → ℕ → ℕ → Digests → Digests
  hash_loop chunk need_sha1 need_sha256 zero addr signed so_far d = d
  hash_loop chunk need_sha1 need_sha256 (suc fuel) addr signed so_far d =
      let size = min (signed - so_far) chunk in
      let rest =
        hash_loop chunk need_sha1 need_sha256 fuel addr signed (so_far + size)
          (update_both need_sha1 need_sha256 d (take size (drop so_far addr))) in
      if ltb so_far signed then rest else d

  unfoldable pub digests : List ℕ → List (Certificate Key) → Digests
  digests addr keys =
      hash_loop chunk_size (needs sha_digest_length keys) (needs sha256_digest_length keys)
        (signed_len addr) addr (signed_len addr) 0
        (record { sha1_ctx = sha1.init; sha256_ctx = sha256.init })

  -- The check of the signature by one key, which has a digest.
  abbrev pub key_verifies : Certificate Key → Nid → List ℕ → List ℕ → KeyType → Bool
  key_verifies cert nid hash sig key_type_rsa = rsa_verify nid hash sig cert.key
  key_verifies cert nid hash sig key_type_ec =
      cert.hash_len == sha256_digest_length && ecdsa_verify hash sig cert.key

  -- One round of the loop over the keys: whether the round returns VERIFY_SUCCESS.
  unfoldable pub accepts : Digests → List ℕ → Certificate Key → Bool
  accepts d sig cert =
      if cert.hash_len == sha_digest_length
      then key_verifies cert nid_sha1 (sha1.final d.sha1_ctx) sig cert.key_type
      else if cert.hash_len == sha256_digest_length
      then key_verifies cert nid_sha256 (sha256.final d.sha256_ctx) sig cert.key_type
      else false

  unfoldable pub any_accepts : Digests → List ℕ → List (Certificate Key) → Bool
  any_accepts d sig [] = false
  any_accepts d sig (cert ∷ keys) = accepts d sig cert || any_accepts d sig keys

  abbrev pub try_keys : List ℕ → List (Certificate Key) → Option (Option (List ℕ)) → Option Bool
  try_keys addr keys none = none
  try_keys addr keys (some none) = some false
  try_keys addr keys (some (some sig)) = some (any_accepts (digests addr keys) sig keys)

  -- The signature is parsed, from where the footer says that it starts.
  unfoldable pub verify_signature : List ℕ → List (Certificate Key) → List ℕ → Option Bool
  verify_signature addr keys signature =
      try_keys addr keys (read_pkcs7 signature (signature_start addr - footer_size))

  abbrev pub verify_checked : List ℕ → List (Certificate Key) → Option Bool → Option Bool
  verify_checked addr keys none = none
  verify_checked addr keys (some false) = some false
  verify_checked addr keys (some true) =
      with_memory (verify_signature addr keys) (at_back addr (signature_start addr))

  -- `verify_file`: `some true` is VERIFY_SUCCESS and `some false` VERIFY_FAILURE; `none` is a read outside
  -- of the mapped package, by the tests of the footer or for the signature.
  unfoldable pub verify_file : List ℕ → List (Certificate Key) → Option Bool
  verify_file addr keys = verify_checked addr keys (check_footer addr)
