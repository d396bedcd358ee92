-- ===== src/Asn1/Operations.antt =====
-- asn1_decoder.cpp: the operations that the signature reader calls stay inside of the buffer.
use recovery.Base.{
  ℕ, suc, zero, ◌-◌, ◌%◌, ◌≤◌, ◌<◌, ◌≡◌, ◌==◌, ltb, Bool, true, false, ◌||◌, not, List, Option,
  none, some, Bool-cases, inl, inr, ◌⊎◌, length, if◌then◌else◌, arith, ltb-false,
}
use recovery.Asn1.Defs.{
  Context, Decoder, ◌>>=◌, pure, context_new, get_byte, decode_length, child_context,
  is_constructed, constructed_from, asn1_constructed_get, skip_length, skip_constructed,
  while_constructed, skip_all_loop, asn1_constructed_skip_all, tagged_from, asn1_sequence_get,
  asn1_set_get, next_from, asn1_sequence_next, contents, primitive_from, asn1_oid_get,
  asn1_octet_string_get,
}
use recovery.Asn1.Inside.{
  Inside, Yields, yields, AnyBool, ChildInside, ContentsInside, Yields-bind, Yields-le, Yields-if,
  get_byte-Yields, peek_byte_total, skip_bytes-Yields, skip_one-Yields, decode_length-Yields,
}

module _ (memory : List ℕ) (size : ℕ) (fits : size ≤ length memory) where
  abbrev In : Context → Type 0
  In = Inside memory size fits

  abbrev Gives : {A : Type 0} → (A → Type 0) → ℕ → Option (A × Context) → Type 0
  Gives = Yields memory size fits

  abbrev Child : Option Context → Type 0
  Child = ChildInside memory size fits

  abbrev Contents : Option (List ℕ × ℕ) → Type 0
  Contents = ContentsInside memory size fits

  child_context-Yields :
      (ty : ℕ) (o : Option ℕ) (c : Context) → In c → Gives Child c.length (child_context ty o c)
  unfolding child_context
  child_context-Yields ty none c i = yields i (omega arith) tt
  child_context-Yields ty (some n) c i = elim (Bool-cases (ltb c.length n)) [
    | inl e ↦ rw e (yields i (omega arith) tt)
    | inr e ↦ rw e (
        yields i (omega arith) (record {
          offset = i.offset;
          at_offset = i.at_offset;
          within = omega (arith, i.within, ltb-false c.length n e);
        }))
  ]

  contents-Yields : (o : Option ℕ) (c : Context) → In c → Gives Contents c.length (contents o c)
  unfolding context_new
  contents-Yields none c i = yields i (omega arith) tt
  contents-Yields (some n) c i = elim (Bool-cases (n == 0 || ltb c.length n)) [
    | inl e ↦ rw e (yields i (omega arith) tt)
    | inr e ↦ rw e (
        yields i (omega arith) (
          record { offset = i.offset; at_offset = i.at_offset; within = ground (arith, i.within) },
          ground arith,
        ))
  ]

  -- The length of what follows, and a use of it.
  measured-Yields :
      {A : Type 0} (P : A → Type 0) (f : Option ℕ → Decoder A) (c : Context)
      → ((o : Option ℕ) (d : Context) → In d → Gives P d.length (f o d))
      → In c
      → Gives P c.length ((decode_length >>= f) c)
  measured-Yields P f c h i =
      Yields-bind memory size fits f (decode_length-Yields memory size fits c i)
        (λ o d t j l. Yields-le memory size fits l (h o d j))

  -- A byte, and what is done with it.
  tagged-Yields :
      {A : Type 0} (P : A → Type 0) (f : Option ℕ → Decoder A) (c : Context)
      → ((o : Option ℕ) (d : Context) → In d → Gives P d.length (f o d))
      → In c
      → Gives P c.length ((get_byte >>= f) c)
  tagged-Yields P f c h i =
      Yields-bind memory size fits f (get_byte-Yields memory size fits c i)
        (λ o d t j l. Yields-le memory size fits l (h o d j))

  tagged_from-Yields :
      (tag : ℕ) (o : Option ℕ) (c : Context) → In c → Gives Child c.length (tagged_from tag o c)
  tagged_from-Yields tag none c i = yields i (omega arith) tt
  tagged_from-Yields tag (some b) c i =
      Yields-if memory size fits (b % 128 == tag) _ (pure none) c
        (measured-Yields Child (child_context 0) c (child_context-Yields 0) i)
        (yields i (omega arith) tt)

  pub asn1_sequence_get-Yields : (c : Context) → In c → Gives Child c.length (asn1_sequence_get c)
  unfolding asn1_sequence_get
  asn1_sequence_get-Yields c i = tagged-Yields Child _ c (tagged_from-Yields 0x30) i

  pub asn1_set_get-Yields : (c : Context) → In c → Gives Child c.length (asn1_set_get c)
  unfolding asn1_set_get
  asn1_set_get-Yields c i = tagged-Yields Child _ c (tagged_from-Yields 0x31) i

  constructed_from-Yields :
      (o : Option ℕ) (c : Context) → In c → Gives Child c.length (constructed_from o c)
  constructed_from-Yields none c i = yields i (omega arith) tt
  constructed_from-Yields (some b) c i =
      Yields-if memory size fits (not (is_constructed b)) (pure none) _ c
        (yields i (omega arith) tt)
        (measured-Yields Child (child_context (b % 32)) c (child_context-Yields (b % 32)) i)

  pub asn1_constructed_get-Yields :
      (c : Context) → In c → Gives Child c.length (asn1_constructed_get c)
  unfolding asn1_constructed_get
  asn1_constructed_get-Yields c i = tagged-Yields Child _ c constructed_from-Yields i

  skip_length-Yields :
      (o : Option ℕ) (c : Context) → In c → Gives AnyBool c.length (skip_length o c)
  skip_length-Yields none c i = yields i (omega arith) tt
  skip_length-Yields (some n) c i = skip_bytes-Yields memory size fits n c i

  next_from-Yields : (o : Option ℕ) (c : Context) → In c → Gives AnyBool c.length (next_from o c)
  next_from-Yields none c i = yields i (omega arith) tt
  next_from-Yields (some b) c i = measured-Yields AnyBool skip_length c skip_length-Yields i

  pub asn1_sequence_next-Yields :
      (c : Context) → In c → Gives AnyBool c.length (asn1_sequence_next c)
  unfolding asn1_sequence_next
  asn1_sequence_next-Yields c i = tagged-Yields AnyBool _ c next_from-Yields i

  primitive_from-Yields :
      (tag : ℕ) (o : Option ℕ) (c : Context)
      → In c
      → Gives Contents c.length (primitive_from tag o c)
  primitive_from-Yields tag none c i = yields i (omega arith) tt
  primitive_from-Yields tag (some b) c i =
      Yields-if memory size fits (b == tag) _ (pure none) c
        (measured-Yields Contents contents c contents-Yields i) (yields i (omega arith) tt)

  pub asn1_oid_get-Yields : (c : Context) → In c → Gives Contents c.length (asn1_oid_get c)
  unfolding asn1_oid_get
  asn1_oid_get-Yields c i = tagged-Yields Contents _ c (primitive_from-Yields 0x06) i

  -- On a context inside of a buffer, the reader of an octet string ends, reads nothing outside of the
  -- buffer, leaves the context inside, and what it hands out is a nonempty part of the buffer.
  pub asn1_octet_string_get-Yields :
      (c : Context) → In c → Gives Contents c.length (asn1_octet_string_get c)
  unfolding asn1_octet_string_get
  asn1_octet_string_get-Yields c i = tagged-Yields Contents _ c (primitive_from-Yields 0x04) i

  -- A constructed element takes at least its tag.
  skip_constructed-Yields :
      (c : Context) → In c → 0 < c.length → Gives AnyBool (c.length - 1) (skip_constructed c)
  unfolding skip_constructed
  skip_constructed-Yields c i h =
      Yields-bind memory size fits _ (skip_one-Yields memory size fits c i h) (λ o d t j l.
        Yields-le memory size fits l (measured-Yields AnyBool skip_length d skip_length-Yields j))

  -- With more fuel than bytes the loop ends by itself.
  skip_all_loop-Yields :
      (fuel : ℕ) (c : Context)
      → In c
      → c.length < fuel
      → Gives AnyBool c.length (skip_all_loop fuel c)
  unfolding skip_all_loop
  skip_all_loop-Yields zero c i h = absurd (omega arith)
  skip_all_loop-Yields (suc fuel) c i h =
      let (o, e, ahead) = peek_byte_total memory size fits c i in
      rw e (go (λ d j l. skip_all_loop-Yields fuel d j l) o ahead)
    where
      again :
          ((d : Context) → In d → d.length < fuel → Gives AnyBool d.length (skip_all_loop fuel d))
          → (more : Bool) (d : Context) → In d
          → d.length < fuel
          → Gives AnyBool d.length ((if more then skip_all_loop fuel else pure false) d)
      again ih true d j l = ih d j l
      again ih false d j l = yields j (omega arith) tt

      go :
          ((d : Context) → In d → d.length < fuel → Gives AnyBool d.length (skip_all_loop fuel d))
          → (o : Option ℕ) → (o ≡ none) ⊎ (0 < c.length)
          → Gives AnyBool c.length (while_constructed (skip_all_loop fuel) o c)
      go ih none ahead = yields i (omega arith) tt
      go ih (some b) (inl e) = cc
      go ih (some b) (inr e) =
          Yields-if memory size fits (is_constructed b) _ (pure true) c
            (Yields-le memory size fits {m = c.length - 1} (omega arith) (
              Yields-bind memory size fits _ (skip_constructed-Yields c i e)
                (λ more d t j l. Yields-le memory size fits l (again ih more d j (omega arith)))))
            (yields i (omega arith) tt)

  -- On a context inside of a buffer, whatever its bytes are, the loop over constructed elements ends
  -- by itself, reads nothing outside of the buffer and leaves the context inside, no longer than it was.
  pub asn1_constructed_skip_all-Yields :
      (c : Context) → In c → Gives AnyBool c.length (asn1_constructed_skip_all c)
  unfolding asn1_constructed_skip_all
  asn1_constructed_skip_all-Yields c i = skip_all_loop-Yields (suc c.length) c i (omega arith)
