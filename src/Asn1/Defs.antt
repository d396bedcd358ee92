-- ===== src/Asn1/Defs.antt =====
-- asn1_decoder.cpp, function by function. The masks of single bytes are written as quotients and
-- remainders: `b & 0x80` is set if `b / 128` is odd, `b & 0x7F` is `b % 128`, `b & 0x1F` is `b % 32`
-- and `(b & 0xE0) == 0xA0` says that `b / 32` is 5. Allocation does not fail.
use recovery.Base.{
  ℕ, suc, ◌+◌, ◌-◌, ◌*◌, ◌/◌, ◌%◌, ◌^◌, ◌==◌, ltb, leb, Bool, true, false, ◌||◌, not, List, [], ◌∷◌,
  Option, none, some, drop, if◌then◌else◌,
}

-- `struct asn1_context`: `p` is the memory from the pointer on, which may be longer than `length`.
pub record Context : Type 0 where
  pub length : ℕ
  pub p : List ℕ
  pub app_type : ℕ

-- An operation on a context. `none` is a read behind the end of the memory.
abbrev pub Decoder : Type 0 → Type 0
Decoder A = Context → Option (A × Context)

abbrev pub and_then : {A B : Type 0} → (A → Decoder B) → Option (A × Context) → Option (B × Context)
and_then f none = none
and_then f (some (a, c)) = f a c

infixl 5 ◌>>=◌
abbrev pub ◌>>=◌ : {A B : Type 0} → Decoder A → (A → Decoder B) → Decoder B
◌>>=◌ m f c = and_then f (m c)

abbrev pub pure : {A : Type 0} → A → Decoder A
pure a c = some (a, c)

unfoldable pub context_new : List ℕ → ℕ → Context
context_new buffer length = record { length = length; p = buffer; app_type = 0 }

abbrev pub front : Context → List ℕ → Option (Option ℕ × Context)
front c [] = none
front c (b ∷ _) = some (some b, c)

-- -1 is `none`.
unfoldable pub peek_byte : Decoder (Option ℕ)
peek_byte c = if c.length == 0 then some (none, c) else front c c.p

abbrev pub pop_front : Context → List ℕ → Option (Option ℕ × Context)
pop_front c [] = none
pop_front c (b ∷ rest) = some (some b, record c { length = c.length - 1; p = rest })

unfoldable pub get_byte : Decoder (Option ℕ)
get_byte c = if c.length == 0 then some (none, c) else pop_front c c.p

unfoldable pub skip_bytes : ℕ → Decoder Bool
skip_bytes num_skip c =
    if ltb c.length num_skip
    then some (false, c)
    else some (true, record c { length = c.length - num_skip; p = drop num_skip c.p })

-- `length <<= 8; length += byte;` on a 64-bit `size_t`.
abbrev pub shift_in : ℕ → ℕ → ℕ
shift_in length byte = (length * 256 % 2 ^ 64 + byte) % 2 ^ 64

-- The loop of `decode_length` over the octets that are left.
unfoldable pub length_octets : ℕ → ℕ → Decoder (Option ℕ)
length_octets ℕ.zero length = pure (some length)
length_octets (suc n) length = get_byte >>= λ byte. elim byte [
  | none ↦ pure none
  | some b ↦ length_octets n (shift_in length b)
]

-- What `decode_length` does with its first byte.
unfoldable pub length_from : Option ℕ → Decoder (Option ℕ)
unfolding length_octets
length_from none = pure none
length_from (some num_octets) =
    if num_octets / 128 % 2 == 0
    then pure (some num_octets)
    else if leb 8 (num_octets % 128)
    then pure none
    else length_octets (num_octets % 128) 0

-- `false` is `none`; otherwise the length that `*out_len` holds.
unfoldable pub decode_length : Decoder (Option ℕ)
unfolding length_from
decode_length = get_byte >>= length_from

-- `if (!decode_length(ctx, &length) || length > ctx->length) return NULL;` and a context for the
-- bytes that follow.
unfoldable pub child_context : ℕ → Option ℕ → Decoder (Option Context)
unfolding context_new
child_context app_type none c = some (none, c)
child_context app_type (some length) c =
    if ltb c.length length
    then some (none, c)
    else some (some (record (context_new c.p length) { app_type = app_type }), c)

unfoldable pub is_constructed : ℕ → Bool
is_constructed byte = byte / 32 % 8 == 5

abbrev pub constructed_from : Option ℕ → Decoder (Option Context)
constructed_from none = pure none
constructed_from (some type) =
    if not (is_constructed type) then pure none else (decode_length >>= child_context (type % 32))

unfoldable pub asn1_constructed_get : Decoder (Option Context)
unfolding is_constructed
asn1_constructed_get = get_byte >>= constructed_from

-- One round of `asn1_constructed_skip_all`, at a constructed byte: whether the loop goes on.
abbrev pub skip_length : Option ℕ → Decoder Bool
skip_length none = pure false
skip_length (some length) = skip_bytes length

unfoldable pub skip_constructed : Decoder Bool
skip_constructed = skip_bytes 1 >>= λ _. decode_length >>= skip_length

-- The loop's test on the byte ahead, and its body before the next round `rest`.
abbrev pub while_constructed : Decoder Bool → Option ℕ → Decoder Bool
while_constructed rest none = pure false
while_constructed rest (some byte) =
    if is_constructed byte
    then (skip_constructed >>= λ more. if more then rest else pure false)
    else pure true

-- The loop of `asn1_constructed_skip_all`. With no fuel left there is no result.
unfoldable pub skip_all_loop : ℕ → Decoder Bool
unfolding peek_byte is_constructed skip_constructed
skip_all_loop ℕ.zero c = none
skip_all_loop (suc fuel) c = and_then (while_constructed (skip_all_loop fuel)) (peek_byte c)

-- Each round takes at least one byte, so the bytes of the context are fuel enough.
unfoldable pub asn1_constructed_skip_all : Decoder Bool
unfolding skip_all_loop
asn1_constructed_skip_all c = skip_all_loop (suc c.length) c

unfoldable pub asn1_constructed_type : Context → ℕ
asn1_constructed_type c = c.app_type

-- `asn1_sequence_get` and `asn1_set_get` differ in the tag, kTagSequence or kTagSet. The masked -1
-- of an exhausted context is neither.
abbrev pub tagged_from : ℕ → Option ℕ → Decoder (Option Context)
tagged_from tag none = pure none
tagged_from tag (some byte) =
    if byte % 128 == tag then (decode_length >>= child_context 0) else pure none

unfoldable pub asn1_sequence_get : Decoder (Option Context)
asn1_sequence_get = get_byte >>= tagged_from 0x30

unfoldable pub asn1_set_get : Decoder (Option Context)
asn1_set_get = get_byte >>= tagged_from 0x31

abbrev pub next_from : Option ℕ → Decoder Bool
next_from none = pure false
next_from (some _) = decode_length >>= skip_length

unfoldable pub asn1_sequence_next : Decoder Bool
asn1_sequence_next = get_byte >>= next_from

-- The pointer and the length that are handed out.
abbrev pub contents : Option ℕ → Decoder (Option (List ℕ × ℕ))
contents none c = some (none, c)
contents (some length) c =
    some (if length == 0 || ltb c.length length then none else some (c.p, length), c)

abbrev pub primitive_from : ℕ → Option ℕ → Decoder (Option (List ℕ × ℕ))
primitive_from tag none = pure none
primitive_from tag (some byte) = if byte == tag then (decode_length >>= contents) else pure none

unfoldable pub asn1_oid_get : Decoder (Option (List ℕ × ℕ))
asn1_oid_get = get_byte >>= primitive_from 0x06

unfoldable pub asn1_octet_string_get : Decoder (Option (List ℕ × ℕ))
asn1_octet_string_get = get_byte >>= primitive_from 0x04
