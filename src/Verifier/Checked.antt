-- ===== src/Verifier/Checked.antt =====
-- verifier.cpp: the tests of the footer read nothing outside of the package.
use recovery.Base.{
  ℕ, suc, zero, ◌+◌, ◌-◌, ◌*◌, ◌≤◌, ◌==◌, ◌≡◌, refl, ap, ◌∙◌, ltb, leb, Bool, true, false, not,
  ◌&&◌, ◌||◌, List, [], ◌∷◌, length, length-drop, drop, Option, none, some, if◌then◌else◌, arith,
  ltb-false,
}
use recovery.Verifier.Memory.{at_back, with_memory, marker_in, or_else, marker_among}
use recovery.Verifier.Pkcs7.{read_pkcs7}
use recovery.Verifier.Defs.{
  Crypto, Certificate, byte_at, footer_size, eocd_header_size, is_marker, has_marker, footer,
  comment_size, signature_start, eocd_size, eocd, footer_passes, on_marker, check_eocd, check_sizes,
  check_words, check_mark, check_footer, try_keys, verify_signature, verify_checked, verify_file,
}

if-some :
    (b : Bool) (x y : Option Bool) (p q : Bool)
    → (b ≡ true → x ≡ some p)
    → (b ≡ false → y ≡ some q)
    → (if b then x else y) ≡ some (if b then p else q)
if-some true x y p q h k = h refl
if-some false x y p q h k = k refl

all_four :
    (p q r s : Bool)
    → (if p
        then if q then if r then if s then some true else some false else some false else some false
        else some false)
      ≡ some (p && (q && (r && s)))
all_four false q r s = refl
all_four true false r s = refl
all_four true true false s = refl
all_four true true true false = refl
all_four true true true true = refl

marker_in-eq : (memory : List ℕ) → 4 ≤ length memory → marker_in memory ≡ some (is_marker memory)
unfolding marker_in is_marker
marker_in-eq [] h = absurd (omega arith)
marker_in-eq (a ∷ []) h = absurd (omega arith)
marker_in-eq (a ∷ b ∷ []) h = absurd (omega arith)
marker_in-eq (a ∷ b ∷ c ∷ []) h = absurd (omega arith)
marker_in-eq (a ∷ b ∷ c ∷ d ∷ memory) h = all_four (a == 0x50) (b == 0x4b) (c == 0x05) (d == 0x06)

or_else-some : (p q : Bool) → or_else (some p) (some q) ≡ some (p || q)
or_else-some true q = refl
or_else-some false q = refl

marker_among-eq :
    (rounds : ℕ) (memory : List ℕ)
    → rounds + 3 ≤ length memory
    → marker_among rounds memory ≡ some (has_marker rounds memory)
unfolding marker_among has_marker
marker_among-eq zero memory h = refl
marker_among-eq (suc rounds) memory h = rw (marker_in-eq memory (omega arith)) (
    rw (marker_among-eq rounds (drop 1 memory) (omega (arith, length-drop 1 memory)))
      (or_else-some (is_marker memory) (has_marker rounds (drop 1 memory))))

-- What the tests of the record come to.
abbrev record_passes : ℕ → List ℕ → Bool
record_passes size memory =
    if not (is_marker memory) then false else not (has_marker (size - 3 - 4) (drop 4 memory))

check_eocd-eq :
    (size : ℕ) (memory : List ℕ)
    → 22 ≤ size
    → size ≤ length memory
    → check_eocd size memory ≡ some (record_passes size memory)
unfolding check_eocd
check_eocd-eq size memory h k = rw (marker_in-eq memory (omega arith)) (either (is_marker memory))
  where
    scanned :
        marker_among (size - 3 - 4) (drop 4 memory)
        ≡ some (has_marker (size - 3 - 4) (drop 4 memory))
    scanned = marker_among-eq (size - 3 - 4) (drop 4 memory) (omega (arith, length-drop 4 memory))

    either :
        (b : Bool)
        → on_marker size memory (some b)
          ≡ some (if not b then false else not (has_marker (size - 3 - 4) (drop 4 memory)))
    either false = refl
    either true = rw scanned refl

abbrev sizes_pass : List ℕ → ℕ → ℕ → Bool
sizes_pass addr start size =
    if leb start footer_size
    then false
    else if ltb (length addr) size
    then false
    else record_passes size (drop (length addr - size) addr)

check_sizes-eq :
    (addr : List ℕ) (start size : ℕ)
    → 22 ≤ size
    → check_sizes addr start size ≡ some (sizes_pass addr start size)
unfolding check_sizes at_back
check_sizes-eq addr start size h =
    if-some (leb start footer_size) (some false) _ false _ (λ e. refl)
      (λ e.
        if-some (ltb (length addr) size) (some false) _ false _ (λ d. refl)
          (λ d. rw d (
            check_eocd-eq size (drop (length addr - size) addr) h
              (omega (arith, length-drop (length addr - size) addr, ltb-false _ _ d)))))

abbrev marked : Bool → Bool → Bool → Bool
marked p q r = if not p || not q then false else r

mark-some :
    (p q r : Bool)
    → (if p then if q then some r else some false else some false) ≡ some (marked p q r)
mark-some false q r = refl
mark-some true false r = refl
mark-some true true r = refl

check_mark-eq :
    (addr memory : List ℕ)
    → 6 ≤ length memory
    → check_mark addr memory
      ≡ some (
          marked (byte_at memory 2 == 0xff) (byte_at memory 3 == 0xff) (
            sizes_pass addr
              (byte_at memory 0 + byte_at memory 1 * 256)
              (byte_at memory 4 + byte_at memory 5 * 256 + eocd_header_size)))
unfolding check_mark check_words
check_mark-eq addr [] h = absurd (omega arith)
check_mark-eq addr (a ∷ []) h = absurd (omega arith)
check_mark-eq addr (a ∷ b ∷ []) h = absurd (omega arith)
check_mark-eq addr (a ∷ b ∷ c ∷ []) h = absurd (omega arith)
check_mark-eq addr (a ∷ b ∷ c ∷ d ∷ []) h = absurd (omega arith)
check_mark-eq addr (a ∷ b ∷ c ∷ d ∷ e ∷ []) h = absurd (omega arith)
check_mark-eq addr (a ∷ b ∷ c ∷ d ∷ e ∷ f ∷ memory) h =
    rw (check_sizes-eq addr (a + b * 256) (e + f * 256 + eocd_header_size) (omega arith))
      (mark-some (c == 0xff) (d == 0xff) _)

-- All reads of the tests are of the package.
pub check_footer-eq : (addr : List ℕ) → check_footer addr ≡ some (footer_passes addr)
unfolding check_footer footer_passes at_back footer comment_size signature_start eocd_size eocd
check_footer-eq addr =
    if-some (ltb (length addr) footer_size) (some false) _ false _ (λ e. refl)
      (λ e. rw e (
        check_mark-eq addr (drop (length addr - footer_size) addr)
          (omega (arith, length-drop (length addr - footer_size) addr, ltb-false _ _ e))))

-- What `verify_file` comes to.
abbrev pub guarded : Bool → Bool → Option Bool → Option Bool
guarded passes outside result = if not passes then some false else if outside then none else result

module _ (crypto : Crypto) where
  pub verify_file-eq :
      (addr : List ℕ) (keys : List (Certificate crypto.Key))
      → verify_file crypto addr keys
        ≡ guarded (footer_passes addr) (ltb (length addr) (signature_start addr)) (
            try_keys crypto addr keys (
              read_pkcs7
                (drop (length addr - signature_start addr) addr)
                (signature_start addr - footer_size)))
  unfolding verify_file verify_signature at_back
  verify_file-eq addr keys =
      ap (verify_checked crypto addr keys) (check_footer-eq addr) ∙ either (footer_passes addr)
    where
      result : Option Bool
      result = try_keys crypto addr keys (
          read_pkcs7 (drop (length addr - signature_start addr) addr)
            (signature_start addr - footer_size))

      fetched :
          (b : Bool)
          → with_memory
              (verify_signature crypto addr keys)
              (if b then none else some (drop (length addr - signature_start addr) addr))
            ≡ (if b then none else result)
      fetched true = refl
      fetched false = refl

      either :
          (p : Bool)
          → verify_checked crypto addr keys (some p)
            ≡ guarded p (ltb (length addr) (signature_start addr)) result
      either true = fetched (ltb (length addr) (signature_start addr))
      either false = refl
