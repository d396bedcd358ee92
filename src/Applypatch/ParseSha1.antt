-- ===== src/Applypatch/ParseSha1.antt =====
-- applypatch/applypatch.cpp: `ParseSha1` and `FindMatchingPatch`, over a text that ends at its first 0 or at its
-- end.
use recovery.Base.{
  ℕ, suc, zero, ◌+◌, ◌-◌, ◌*◌, ◌==◌, leb, Bool, false, ◌&&◌, List, [], ◌∷◌, Text, text_eq, Option,
  none, some, if◌then◌else◌,
}

-- `SHA_DIGEST_LENGTH`
abbrev pub sha_digest_length : ℕ
sha_digest_length = 20

-- One digit.
unfoldable pub digit_of : ℕ → Option ℕ
digit_of c =
    if leb 48 c && leb c 57
    then some (c - 48)
    else if leb 97 c && leb c 102
    then some (c - 97 + 10)
    else if leb 65 c && leb c 70
    then some (c - 65 + 10)
    else none

abbrev pub put_byte : Option ℕ → Option ℕ → Option (List ℕ) → Option (List ℕ)
put_byte (some high) (some low) (some digest) = some ((high * 16 + low) ∷ digest)
put_byte none low digest = none
put_byte (some high) none digest = none
put_byte (some high) (some low) none = none

-- What may stand behind the digits.
abbrev pub at_end : Text → Option (List ℕ)
at_end [] = some []
at_end (c ∷ t) = if c == 0 then some [] else none

-- The loop, two rounds for each byte that is left.
unfoldable pub parse_bytes : ℕ → Text → Option (List ℕ)
parse_bytes zero t = at_end t
parse_bytes (suc left) [] = none
parse_bytes (suc left) (a ∷ []) = none
parse_bytes (suc left) (a ∷ b ∷ t) = put_byte (digit_of a) (digit_of b) (parse_bytes left t)

-- `ParseSha1`; none is -1.
unfoldable pub parse_sha1 : Text → Option (List ℕ)
parse_sha1 str = parse_bytes sha_digest_length str

abbrev pub is_digest : List ℕ → Option (List ℕ) → Bool
is_digest sha1 none = false
is_digest sha1 (some parsed) = text_eq parsed sha1

-- The search from the index i on.
unfoldable pub find_from : List ℕ → List Text → ℕ → Option ℕ
find_from sha1 [] i = none
find_from sha1 (str ∷ strs) i =
    if is_digest sha1 (parse_sha1 str) then some i else find_from sha1 strs (i + 1)

-- `FindMatchingPatch`; none is -1.
unfoldable pub find_matching_patch : List ℕ → List Text → Option ℕ
find_matching_patch sha1 patch_sha1_str = find_from sha1 patch_sha1_str 0
