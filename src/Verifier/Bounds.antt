-- ===== src/Verifier/Bounds.antt =====
-- verifier.cpp: where `verify_file` reads, and what its scan for a second marker excludes.
use recovery.Base.{
  ℕ, suc, zero, ◌+◌, ◌-◌, ◌≤◌, ◌<◌, ◌≡◌, sym, ap, ◌∙◌, true, false, List, drop, drop-drop, arith,
}
use recovery.Verifier.Defs.{footer_passes, is_marker, has_marker, eocd, eocd_size}

has_marker-false :
    (rounds i : ℕ) (bytes : List ℕ)
    → has_marker rounds bytes ≡ false
    → i < rounds
    → is_marker (drop i bytes) ≡ false
unfolding has_marker
has_marker-false zero i bytes h l = absurd (omega arith)
has_marker-false (suc n) zero bytes h l = ground arith
has_marker-false (suc n) (suc i) bytes h l =
    let e : suc i ≡ 1 + i = omega arith in
    let e' : drop (suc i) bytes ≡ drop i (drop 1 bytes) =
      ap (λ (k : ℕ). drop k bytes) e ∙ sym (drop-drop 1 i bytes) in
    rw e' (has_marker-false n i (drop 1 bytes) (ground arith) (omega arith))

-- In a package that passes the tests, the end-of-central-directory magic stands at the record's
-- start, and at no offset of the record from 4 on that leaves room for it.
pub footer_passes-marker :
    (addr : List ℕ) (i : ℕ)
    → footer_passes addr ≡ true
    → 4 ≤ i
    → i + 3 < eocd_size addr
    → (is_marker (eocd addr) ≡ true) × (is_marker (drop i (eocd addr)) ≡ false)
unfolding footer_passes
footer_passes-marker addr i h l m =
    let first : is_marker (eocd addr) ≡ true = ground arith in
    let scanned : has_marker (eocd_size addr - 3 - 4) (drop 4 (eocd addr)) ≡ false = ground arith in
    let e : i ≡ 4 + (i - 4) = omega arith in
    let e' : drop i (eocd addr) ≡ drop (i - 4) (drop 4 (eocd addr)) =
      ap (λ (k : ℕ). drop k (eocd addr)) e ∙ sym (drop-drop 4 (i - 4) (eocd addr)) in
    (
      first,
      rw e' (
          has_marker-false (eocd_size addr - 3 - 4) (i - 4) (drop 4 (eocd addr)) scanned
            (omega arith)),
    )
