-- ===== src/Base/Bytes.antt =====
-- Texts as lists of bytes, as `std::string` and `char*` hold them.
use Prim.Native.Nat.{ℕ}
use Prim.Native.Char.{code}
use Prim.Native.String.{String}
use mathlib.Core.Path.{◌≡◌, refl}
use mathlib.Core.Logic.{◌↔◌}
use mathlib.Core.Bool.{Bool, true, false, ◌&&◌, ◌||◌}
use mathlib.Core.List.{List, [], ◌∷◌, ◌++◌}
use native.Mathlib.Omega.{arith}
use recovery.Base.Tests.{◌==◌, if◌then◌else◌}

abbrev pub Text : Type 0
Text = List ℕ

-- The bytes of an ASCII literal.
abbrev pub codes : String → Text
codes String.[] = []
codes (String.◌∷◌ c s) = code c ∷ codes s

-- What `c_str()` shows of a string: the bytes before the first NUL.
abbrev pub c_str : Text → Text
c_str [] = []
c_str (c ∷ t) = if c == 0 then [] else c ∷ c_str t

abbrev pub NoNul : Text → Type 0
NoNul [] = Unit
NoNul (c ∷ t) = ((c == 0) ≡ false) × NoNul t

pub c_str-eq_of_NoNul : (t : Text) → NoNul t → c_str t ≡ t
c_str-eq_of_NoNul [] h = refl
c_str-eq_of_NoNul (c ∷ t) h = ground (arith, c_str-eq_of_NoNul t h.1)

pub NoNul-c_str : (t : Text) → NoNul (c_str t)
NoNul-c_str [] = tt
NoNul-c_str (c ∷ t) = ground (arith, NoNul-c_str t)

pub NoNul-append : (s t : Text) → NoNul s → NoNul t → NoNul (s ++ t)
NoNul-append [] t h k = k
NoNul-append (c ∷ s) t h k = (h.0, NoNul-append s t h.1 k)

-- `operator==` of two strings.
abbrev pub text_eq : Text → Text → Bool
text_eq [] [] = true
text_eq [] (_ ∷ _) = false
text_eq (_ ∷ _) [] = false
text_eq (a ∷ s) (b ∷ t) = (a == b) && text_eq s t

pub text_eq_refl : (t : Text) → text_eq t t ≡ true
text_eq_refl [] = refl
text_eq_refl (a ∷ t) = ground (arith, text_eq_refl t)

pub eq_of_text_eq : (s t : Text) → text_eq s t ≡ true → s ≡ t
eq_of_text_eq [] [] h = refl
eq_of_text_eq [] (b ∷ t) h = cc
eq_of_text_eq (a ∷ s) [] h = cc
eq_of_text_eq (a ∷ s) (b ∷ t) h = ground (arith, eq_of_text_eq s t)

pub text_eq_iff : (s t : Text) → (text_eq s t ≡ true) ↔ (s ≡ t)
text_eq_iff s t = (eq_of_text_eq s t, λ e. rw e (text_eq_refl t))

abbrev pub is_empty : Text → Bool
is_empty [] = true
is_empty (_ ∷ _) = false

abbrev pub starts_with : Text → Text → Bool
starts_with [] _ = true
starts_with (_ ∷ _) [] = false
starts_with (a ∷ s) (b ∷ t) = (a == b) && starts_with s t

-- `haystack.find(needle) != npos`, the needle first.
abbrev pub is_infix : Text → Text → Bool
is_infix needle [] = is_empty needle
is_infix needle (c ∷ t) = starts_with needle (c ∷ t) || is_infix needle t
