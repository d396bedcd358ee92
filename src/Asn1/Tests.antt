-- ===== src/Asn1/Tests.antt =====
-- asn1_decoder.cpp: runs on short buffers.
use recovery.Base.{ℕ, ◌^◌, ◌≡◌, ◌≤◌, ◌<◌, refl, true, List, [], ◌∷◌, some, length, drop, arith}
use recovery.Asn1.Defs.{
  Context, peek_byte, get_byte, skip_bytes, length_octets, length_from, decode_length,
  skip_all_loop, asn1_constructed_skip_all, asn1_octet_string_get, skip_constructed,
}
use recovery.Asn1.Inside.{Inside, Yields, AnyBool, ContentsInside}
use recovery.Asn1.Operations.{asn1_constructed_skip_all-Yields, asn1_octet_string_get-Yields}
use recovery.Asn1.Length.{context_at, be_value, decode_length-short, decode_length-long}

-- A constructed element, and an octet string behind it.
abbrev buffer : List ℕ
buffer = 0xA0 ∷ 1 ∷ 5 ∷ 0x04 ∷ 2 ∷ 8 ∷ 9 ∷ []

buffer_fits : 7 ≤ length buffer
buffer_fits = omega arith

start : Context
start = context_at 7 buffer 0

start-Inside : Inside buffer 7 buffer_fits start
unfolding start
start-Inside = record { offset = 0; at_offset = refl; within = omega arith }

asn1_constructed_skip_all-Yields_example :
    Yields buffer 7 buffer_fits AnyBool start.length (asn1_constructed_skip_all start)
asn1_constructed_skip_all-Yields_example =
    asn1_constructed_skip_all-Yields buffer 7 buffer_fits start start-Inside

skips_one :
    asn1_constructed_skip_all (context_at 7 buffer 0)
    ≡ some (true, context_at 4 (0x04 ∷ 2 ∷ 8 ∷ 9 ∷ []) 0)
unfolding asn1_constructed_skip_all skip_all_loop peek_byte get_byte skip_bytes decode_length
    length_from length_octets skip_constructed
skips_one = refl

behind : Context
behind = context_at 4 (drop 3 buffer) 0

behind-Inside : Inside buffer 7 buffer_fits behind
unfolding behind
behind-Inside = record { offset = 3; at_offset = refl; within = omega arith }

asn1_octet_string_get-Yields_example :
    Yields buffer 7 buffer_fits
      (ContentsInside buffer 7 buffer_fits)
      behind.length
      (asn1_octet_string_get behind)
asn1_octet_string_get-Yields_example =
    asn1_octet_string_get-Yields buffer 7 buffer_fits behind behind-Inside

decode_length-short_example :
    decode_length (context_at 3 (100 ∷ 1 ∷ 2 ∷ []) 0) ≡ some (some 100, context_at 2 (1 ∷ 2 ∷ []) 0)
decode_length-short_example = decode_length-short 3 100 (1 ∷ 2 ∷ []) 0 (omega arith) (omega arith)

decode_length-long_example :
    (decode_length (context_at 4 (130 ∷ 1 ∷ 2 ∷ 9 ∷ []) 0)
      ≡ some (some (be_value 0 (1 ∷ 2 ∷ [])), context_at 1 (9 ∷ []) 0))
    × (be_value 0 (1 ∷ 2 ∷ []) < 2 ^ 56)
decode_length-long_example =
    decode_length-long (1 ∷ 2 ∷ []) (9 ∷ []) 4 0 (omega arith, (omega arith, tt)) (omega arith)
      (omega arith)
