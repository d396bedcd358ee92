-- ===== src/Verifier/Pkcs7.antt =====
-- verifier.cpp: `read_pkcs7`, which finds the signature in a PKCS#7 structure.
use recovery.Base.{
  ℕ, ◌+◌, ◌≤◌, ◌<◌, ◌≡◌, refl, Bool, true, false, List, Option, none, some, length, take, drop,
  arith, ap,
}
use recovery.Asn1.Defs.{
  Context, Decoder, context_new, asn1_sequence_get, asn1_sequence_next, asn1_constructed_get,
  asn1_constructed_skip_all, asn1_set_get, asn1_octet_string_get,
}
use recovery.Asn1.Inside.{Inside, Yields, yields, ChildInside, ContentsInside, AnyBool}
use recovery.Asn1.Operations.{
  asn1_sequence_get-Yields, asn1_sequence_next-Yields, asn1_constructed_get-Yields,
  asn1_constructed_skip_all-Yields, asn1_set_get-Yields, asn1_octet_string_get-Yields,
}

-- A part of `read_pkcs7` that goes on in a context. The outer `none` is a read behind the memory, the
-- inner one means that no signature was found.
abbrev pub Search : Type 0
Search = Context → Option (Option (List ℕ))

abbrev pub child_found : Search → Option (Option Context × Context) → Option (Option (List ℕ))
child_found k none = none
child_found k (some (none, _)) = some none
child_found k (some (some d, _)) = k d

-- `d = get(c); if (d != NULL) …` with `d`.
abbrev pub in_child : Decoder (Option Context) → Search → Search
in_child get k c = child_found k (get c)

abbrev pub test_passed : Search → Option (Bool × Context) → Option (Option (List ℕ))
test_passed k none = none
test_passed k (some (true, c)) = k c
test_passed k (some (false, c)) = some none

-- `if (next(c) && …)` with the same context.
abbrev pub after : Decoder Bool → Search → Search
after next k c = test_passed k (next c)

-- The copy of the octet string.
abbrev pub copied : Option (Option (List ℕ × ℕ) × Context) → Option (Option (List ℕ))
copied none = none
copied (some (none, _)) = some none
copied (some (some (p, n), _)) = some (some (take n p))

unfoldable pub read_signer : Search
read_signer = after asn1_sequence_next (
    after asn1_sequence_next
      (after asn1_sequence_next (after asn1_sequence_next (λ c. copied (asn1_octet_string_get c)))))

unfoldable pub read_signed_data : Search
unfolding read_signer
read_signed_data = after asn1_sequence_next (
    after asn1_sequence_next (
      after asn1_sequence_next (
        after asn1_constructed_skip_all
          (in_child asn1_set_get (in_child asn1_sequence_get read_signer)))))

unfoldable pub read_pkcs7 : List ℕ → ℕ → Option (Option (List ℕ))
unfolding read_signed_data
read_pkcs7 pkcs7_der pkcs7_der_len =
    in_child asn1_sequence_get
      (after asn1_sequence_next
        (in_child asn1_constructed_get (in_child asn1_sequence_get read_signed_data)))
      (context_new pkcs7_der pkcs7_der_len)

module _ (memory : List ℕ) (size : ℕ) (fits : size ≤ length memory) where
  -- A part of the first `size` bytes of the memory that is not empty.
  pub record IsPart (bytes : List ℕ) : Type 0 where
    pub from : ℕ
    pub count : ℕ
    pub positive : 0 < count
    pub within : from + count ≤ size
    pub same : bytes ≡ take count (drop from memory)

  -- The search ended, and what it found is a part of the buffer.
  pub data Finds : Option (Option (List ℕ)) → Type 0 where
    nothing : Finds (some none)
    part : {bytes : List ℕ} → IsPart bytes → Finds (some (some bytes))

  abbrev Finder : Search → Type 0
  Finder k = (c : Context) → Inside memory size fits c → Finds (k c)

  in_child-Finds :
      (k : Search) (n : ℕ) {r : Option (Option Context × Context)}
      → Finder k
      → Yields memory size fits (ChildInside memory size fits) n r
      → Finds (child_found k r)
  in_child-Finds k n f (yields {a = none} i l p) = nothing
  in_child-Finds k n f (yields {a = some d} i l p) = f d p

  after-Finds :
      (k : Search) (n : ℕ) {r : Option (Bool × Context)}
      → Finder k
      → Yields memory size fits AnyBool n r
      → Finds (test_passed k r)
  after-Finds k n f (yields {a = true} i l p) = f _ i
  after-Finds k n f (yields {a = false} i l p) = nothing

  copied-Finds :
      (n : ℕ) {r : Option (Option (List ℕ × ℕ) × Context)}
      → Yields memory size fits (ContentsInside memory size fits) n r
      → Finds (copied r)
  unfolding context_new
  copied-Finds n (yields {a = none} i l p) = nothing
  copied-Finds n (yields {a = some (bytes, m)} i l p) = part (record {
    from = p.0.offset;
    count = m;
    positive = p.1;
    within = p.0.within;
    same = ap (take m) p.0.at_offset;
  })

  next-Finder : (k : Search) → Finder k → Finder (after asn1_sequence_next k)
  next-Finder k f c i = after-Finds k c.length f (asn1_sequence_next-Yields memory size fits c i)

  sequence-Finder : (k : Search) → Finder k → Finder (in_child asn1_sequence_get k)
  sequence-Finder k f c i =
      in_child-Finds k c.length f (asn1_sequence_get-Yields memory size fits c i)

  read_signer-Finder : Finder read_signer
  unfolding read_signer
  read_signer-Finder = next-Finder _ (
      next-Finder _ (
        next-Finder _ (
          next-Finder _
            (λ c i. copied-Finds c.length (asn1_octet_string_get-Yields memory size fits c i)))))

  read_signed_data-Finder : Finder read_signed_data
  unfolding read_signed_data
  read_signed_data-Finder = next-Finder _ (
      next-Finder _ (
        next-Finder _ (λ c i.
          after-Finds _ c.length
            (λ d j.
              in_child-Finds _ d.length (sequence-Finder read_signer read_signer-Finder)
                (asn1_set_get-Yields memory size fits d j))
            (asn1_constructed_skip_all-Yields memory size fits c i))))

  -- On any bytes `read_pkcs7` ends and reads none outside of the buffer, and a signature that it finds
  -- is a nonempty part of the buffer.
  pub read_pkcs7-Finds : Finds (read_pkcs7 memory size)
  unfolding read_pkcs7 context_new
  read_pkcs7-Finds =
      sequence-Finder _
        (next-Finder _ (λ c i.
          in_child-Finds _ c.length (sequence-Finder read_signed_data read_signed_data-Finder)
            (asn1_constructed_get-Yields memory size fits c i)))
        (context_new memory size) (record { offset = 0; at_offset = refl; within = omega arith })
