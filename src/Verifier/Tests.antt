-- ===== src/Verifier/Tests.antt =====
-- verifier.cpp: a signed package, and runs on it.
use recovery.Base.{
  ℕ, ◌+◌, ◌≡◌, ◌≤◌, ◌<◌, refl, ◌==◌, true, false, ◌&&◌, ◌++◌, List, [], ◌∷◌, none, some, length,
  text_eq, append_assoc, append-nil, replicate, take, drop, arith,
}
use recovery.Asn1.Defs.{
  context_new, peek_byte, get_byte, skip_bytes, length_octets, length_from, decode_length,
  asn1_constructed_get, skip_all_loop, asn1_constructed_skip_all, asn1_sequence_get, asn1_set_get,
  asn1_sequence_next, asn1_octet_string_get, child_context, skip_constructed, is_constructed,
}
use recovery.Verifier.Memory.{at_back, marker_in, marker_among}
use recovery.Verifier.Pkcs7.{read_pkcs7, read_signed_data, read_signer, Finds, read_pkcs7-Finds}
use recovery.Verifier.Defs.{
  Hasher, key_type_rsa, Crypto, Certificate, is_marker, has_marker, footer, comment_size,
  signature_start, eocd_size, signed_len, eocd, footer_passes, needs, update_both, hash_loop,
  digests, accepts, any_accepts, check_footer, check_mark, check_words, check_sizes, check_eocd,
  verify_signature, verify_file, sha_digest_length, sha256_digest_length,
}
use recovery.Verifier.Digest.{digests-eq}
use recovery.Verifier.Sound.{Verified, verify_file_sound}
use recovery.Verifier.Bounds.{footer_passes-marker}

-- A digest that keeps all bytes and ends in their number.
abbrev counting : Hasher
counting = record {
  Ctx = List ℕ;
  init = [];
  update = λ c bytes. c ++ bytes;
  final = λ c. length c ∷ [];
  update_nil = λ c. append-nil c;
  update-append = λ c a b. append_assoc c a b;
}

abbrev crypto : Crypto
crypto = record {
  Key = ℕ;
  sha1 = counting;
  sha256 = counting;
  rsa_verify = λ nid hash sig key. text_eq hash (23 ∷ []) && (text_eq sig (42 ∷ []) && key == 7);
  ecdsa_verify = λ hash sig key. false;
}

abbrev signature_der : List ℕ
signature_der =
    0x30 ∷ 0x1E ∷ 0x06 ∷ 0x01 ∷ 0x2A ∷ 0xA0 ∷ 0x19 ∷ 0x30 ∷ 0x17 ∷ 0x02 ∷ 0x01 ∷ 0x01 ∷ 0x31 ∷ 0x00
    ∷ 0x30 ∷ 0x00 ∷ 0x31 ∷ 0x0E ∷ 0x30 ∷ 0x0C ∷ 0x02 ∷ 0x01 ∷ 0x01 ∷ 0x30 ∷ 0x00 ∷ 0x30 ∷ 0x00
    ∷ 0x30 ∷ 0x00 ∷ 0x04 ∷ 0x01 ∷ 42 ∷ []

abbrev signed_package : List ℕ
signed_package =
    1 ∷ 2 ∷ 3 ∷ 0x50 ∷ 0x4b ∷ 0x05 ∷ 0x06 ∷ replicate 16 0
    ++ (38 ∷ 0 ∷ signature_der ++ (38 ∷ 0 ∷ 0xff ∷ 0xff ∷ 38 ∷ 0 ∷ []))

abbrev keys : List (Certificate ℕ)
keys =
    record { hash_len = 20; key_type = key_type_rsa; key = 6 }
    ∷ record { hash_len = 32; key_type = key_type_rsa; key = 7 }
    ∷ []

signed_package-verifies : verify_file crypto signed_package keys ≡ some true
unfolding verify_file verify_signature check_footer check_mark check_words check_sizes check_eocd
    at_back marker_in marker_among footer comment_size signature_start eocd_size signed_len digests
    hash_loop needs accepts any_accepts read_pkcs7 read_signed_data read_signer context_new
    peek_byte get_byte skip_bytes length_octets length_from decode_length asn1_constructed_get
    skip_all_loop asn1_constructed_skip_all asn1_sequence_get asn1_set_get asn1_sequence_next
    asn1_octet_string_get child_context skip_constructed is_constructed
signed_package-verifies = refl

verify_file_sound_example : Verified crypto signed_package keys
verify_file_sound_example = verify_file_sound crypto signed_package keys signed_package-verifies

signed_package-passes : footer_passes signed_package ≡ true
unfolding footer_passes footer comment_size signature_start eocd_size eocd is_marker has_marker
signed_package-passes = refl

signed_package-room : 40 + 3 < eocd_size signed_package
unfolding eocd_size comment_size footer
signed_package-room = omega arith

footer_passes-marker_example :
    (is_marker (eocd signed_package) ≡ true) × (is_marker (drop 40 (eocd signed_package)) ≡ false)
footer_passes-marker_example =
    footer_passes-marker signed_package 40 signed_package-passes (omega arith) signed_package-room

-- A footer whose signature would start in front of the package.
abbrev bad_package : List ℕ
bad_package =
    0x50 ∷ 0x4b ∷ 0x05 ∷ 0x06 ∷ replicate 16 0 ++ (6 ∷ 0 ∷ 100 ∷ 0 ∷ 0xff ∷ 0xff ∷ 6 ∷ 0 ∷ [])

bad_package-outside : verify_file crypto bad_package keys ≡ none
unfolding verify_file verify_signature check_footer check_mark check_words check_sizes check_eocd
    at_back marker_in marker_among footer signature_start
bad_package-outside = refl

digests-eq_example :
    digests crypto signed_package keys
    ≡ update_both crypto
        (needs crypto sha_digest_length keys)
        (needs crypto sha256_digest_length keys)
        (record { sha1_ctx = []; sha256_ctx = [] })
        (take (signed_len signed_package) signed_package)
digests-eq_example = digests-eq crypto signed_package keys

der_fits : 32 ≤ length signature_der
der_fits = omega arith

read_pkcs7-Finds_example : Finds signature_der 32 der_fits (read_pkcs7 signature_der 32)
read_pkcs7-Finds_example = read_pkcs7-Finds signature_der 32 der_fits

found_signature : read_pkcs7 signature_der 32 ≡ some (some (42 ∷ []))
unfolding read_pkcs7 read_signed_data read_signer context_new peek_byte get_byte skip_bytes
    length_octets length_from decode_length asn1_constructed_get skip_all_loop
    asn1_constructed_skip_all asn1_sequence_get asn1_set_get asn1_sequence_next
    asn1_octet_string_get child_context skip_constructed is_constructed
found_signature = refl
