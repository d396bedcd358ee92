-- ===== src/Applypatch/Digests.antt =====
-- applypatch/applypatch.cpp and print_sha1.h: a digest that is printed is read back.
use recovery.Base.{
  ℕ, ◌*◌, ◌+◌, ◌/◌, ◌%◌, ◌<◌, ◌≡◌, refl, ap, ◌∙◌, List, [], ◌∷◌, length, Text, text_eq_refl, sym,
  some, arith,
}
use recovery.PrintSha1.{hex_digit, print_sha1}
use recovery.Applypatch.ParseSha1.{
  sha_digest_length, digit_of, parse_bytes, parse_sha1, find_from, find_matching_patch,
}

pub data Bytes : List ℕ → Type 0 where
  no_byte : Bytes []
  byte : {b : ℕ} {bytes : List ℕ} → b < 256 → Bytes bytes → Bytes (b ∷ bytes)

digit_of-hex_digit : (n : ℕ) → n < 16 → digit_of (hex_digit n) ≡ some n
unfolding digit_of hex_digit
digit_of-hex_digit n h = ground arith

parse_bytes-print_sha1 :
    (digest : List ℕ) → Bytes digest → parse_bytes (length digest) (print_sha1 digest) ≡ some digest
unfolding parse_bytes print_sha1
parse_bytes-print_sha1 _ no_byte = refl
parse_bytes-print_sha1 _ (byte {b} {bytes} h r) =
    rw (digit_of-hex_digit (b / 16 % 16) (omega arith)) (
      rw (digit_of-hex_digit (b % 16) (omega arith)) (
        rw (parse_bytes-print_sha1 bytes r) (
          ap (λ (n : ℕ). some (n ∷ bytes))
            (let e : b / 16 % 16 * 16 + b % 16 ≡ b = omega arith in e))))

-- A digest of twenty bytes that is printed is read back as it was, and a search for it among texts the
-- first of which is its print gives the index 0.
pub parse_sha1-print_sha1 :
    (digest : List ℕ) (others : List Text)
    → length digest ≡ sha_digest_length
    → Bytes digest
    → (parse_sha1 (print_sha1 digest) ≡ some digest)
      × (find_matching_patch digest (print_sha1 digest ∷ others) ≡ some 0)
unfolding parse_sha1 find_matching_patch find_from
parse_sha1-print_sha1 digest others l h = (parsed, rw parsed (rw (text_eq_refl digest) refl))
  where
    parsed : parse_bytes sha_digest_length (print_sha1 digest) ≡ some digest
    parsed =
        ap (λ (n : ℕ). parse_bytes n (print_sha1 digest)) (sym l) ∙ parse_bytes-print_sha1 digest h
