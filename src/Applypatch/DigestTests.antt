-- ===== src/Applypatch/DigestTests.antt =====
-- applypatch/applypatch.cpp: runs of `ParseSha1` on small inputs.
use recovery.Base.{ℕ, suc, zero, ◌<◌, ◌≡◌, refl, [], ◌∷◌, codes, replicate, none, some, arith}
use recovery.PrintSha1.{print_sha1}
use recovery.Applypatch.ParseSha1.{
  sha_digest_length, digit_of, parse_bytes, parse_sha1, find_matching_patch,
}
use recovery.Applypatch.Digests.{Bytes, no_byte, byte, parse_sha1-print_sha1}

-- Letters of both cases are read; a digit too few is refused.
both_cases :
    parse_sha1 (codes "aBaBaBaBaBaBaBaBaBaBaBaBaBaBaBaBaBaBaBaB")
    ≡ some (replicate sha_digest_length 171)
unfolding parse_sha1 parse_bytes digit_of
both_cases = refl

one_too_few : parse_sha1 (codes "aBaBaBaBaBaBaBaBaBaBaBaBaBaBaBaBaBaBaBa") ≡ none
unfolding parse_sha1 parse_bytes digit_of
one_too_few = refl

replicate-Bytes : (n b : ℕ) → b < 256 → Bytes (replicate n b)
replicate-Bytes zero b h = no_byte
replicate-Bytes (suc n) b h = byte h (replicate-Bytes n b h)

parse_sha1-print_sha1_example :
    (parse_sha1 (print_sha1 (replicate sha_digest_length 171))
      ≡ some (replicate sha_digest_length 171))
    × (find_matching_patch
          (replicate sha_digest_length 171)
          (print_sha1 (replicate sha_digest_length 171) ∷ [])
        ≡ some 0)
parse_sha1-print_sha1_example =
    parse_sha1-print_sha1 (replicate sha_digest_length 171) [] refl
      (replicate-Bytes sha_digest_length 171 (omega arith))
