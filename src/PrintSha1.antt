-- ===== src/PrintSha1.antt =====
-- print_sha1.h: digests as texts.
use recovery.Base.{ℕ, ◌/◌, ◌%◌, List, [], ◌∷◌, get_or, take, Text, codes}

-- The digit's code in "0123456789abcdef".
unfoldable pub hex_digit : ℕ → ℕ
hex_digit n = get_or (codes "0123456789abcdef") n 0

-- `print_sha1(sha1, len)` of all bytes given.
unfoldable pub print_sha1 : List ℕ → Text
unfolding hex_digit
print_sha1 [] = []
print_sha1 (b ∷ sha1) = hex_digit (b / 16 % 16) ∷ hex_digit (b % 16) ∷ print_sha1 sha1

-- `short_sha1`.
unfoldable pub short_sha1 : List ℕ → Text
unfolding print_sha1
short_sha1 sha1 = print_sha1 (take 4 sha1)
