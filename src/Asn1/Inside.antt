-- ===== src/Asn1/Inside.antt =====
-- asn1_decoder.cpp reads no byte outside of the bytes that it is given: every operation on a context
-- inside of a buffer ends, stays inside, and hands out contexts that lie inside.
use recovery.Base.{
  ℕ, suc, zero, ◌+◌, ◌-◌, ◌/◌, ◌%◌, ◌≤◌, ◌<◌, ◌≡◌, refl, sym, ◌∙◌, ap, ◌==◌, ltb, leb, Bool, true,
  false, List, [], ◌∷◌, Option, none, some, Bool-cases, inl, inr, drop, length, length-drop,
  drop-drop, if◌then◌else◌, arith, ltb-false, ltb→lt, ◌⊎◌,
}
use recovery.Asn1.Defs.{
  Context, Decoder, and_then, pure, context_new, front, peek_byte, pop_front, get_byte, skip_bytes,
  length_octets, length_from, decode_length, shift_in,
}

-- Nothing is asked of the value.
abbrev pub AnyByte : Option ℕ → Type 0
AnyByte o = Unit {0}

abbrev pub AnyBool : Bool → Type 0
AnyBool b = Unit {0}

-- The buffer is the first `size` bytes of the memory.
module _ (memory : List ℕ) (size : ℕ) (fits : size ≤ length memory) where
  -- The context covers bytes of the buffer.
  pub record Inside (c : Context) : Type 0 where
    pub offset : ℕ
    pub at_offset : c.p ≡ drop offset memory
    pub within : offset + c.length ≤ size

  -- The operation gave a result; the context is inside, with at most `n` bytes left.
  pub data Yields {A : Type 0} (P : A → Type 0) (n : ℕ) : Option (A × Context) → Type 0 where
    yields : {a : A} {c : Context} → Inside c → c.length ≤ n → P a → Yields P n (some (a, c))

  module _ {A B : Type 0} {P : A → Type 0} {Q : B → Type 0} where
    pub Yields-bind :
        {n : ℕ} {r : Option (A × Context)} (f : A → Decoder B)
        → Yields P n r
        → ((a : A) (c : Context) → P a → Inside c → c.length ≤ n → Yields Q n (f a c))
        → Yields Q n (and_then f r)
    Yields-bind f (yields i l p) h = h _ _ p i l

  module _ {A : Type 0} {P : A → Type 0} where
    pub Yields-le : {m n : ℕ} {r : Option (A × Context)} → m ≤ n → Yields P m r → Yields P n r
    Yields-le le (yields i l p) = yields i (omega arith) p

    pub Yields-if :
        {n : ℕ} (b : Bool) (m k : Decoder A) (c : Context)
        → Yields P n (m c)
        → Yields P n (k c)
        → Yields P n ((if b then m else k) c)
    Yields-if true m k c h j = h
    Yields-if false m k c h j = j

  drop_cons :
      (o : ℕ) (xs : List ℕ) (b : ℕ) (rest : List ℕ) → b ∷ rest ≡ drop o xs → rest ≡ drop (o + 1) xs
  drop_cons o xs b rest e = ap (drop 1) e ∙ drop-drop o 1 xs

  nonempty : (c : Context) → Inside c → 0 < c.length → c.p ≡ [] → ⊥
  nonempty c i h e = omega (arith, length-drop i.offset memory, ap length e, ap length i.at_offset)

  -- What is handed out lies inside.
  abbrev pub ChildInside : Option Context → Type 0
  ChildInside none = Unit
  ChildInside (some c) = Inside c

  abbrev pub ContentsInside : Option (List ℕ × ℕ) → Type 0
  ContentsInside none = Unit
  ContentsInside (some (p, n)) = Inside (context_new p n) × (0 < n)

  pop_front-Yields :
      (c : Context) (p : List ℕ)
      → Inside c
      → c.p ≡ p
      → 0 < c.length
      → Yields AnyByte (c.length - 1) (pop_front c p)
  pop_front-Yields c [] i e h = absurd (nonempty c i h e)
  pop_front-Yields c (b ∷ rest) i e h =
      yields
        (record {
          offset = i.offset + 1;
          at_offset = drop_cons i.offset memory b rest (sym e ∙ i.at_offset);
          within = omega (arith, i.within);
        })
        (omega arith) tt

  pub get_byte-Yields : (c : Context) → Inside c → Yields AnyByte c.length (get_byte c)
  unfolding get_byte
  get_byte-Yields c i = elim (Bool-cases (c.length == 0)) [
    | inl e ↦ rw e (yields i (omega arith) tt)
    | inr e ↦ rw e (Yields-le (omega arith) (pop_front-Yields c c.p i refl (ground arith)))
  ]

  -- Looking ahead changes nothing.
  pub peek_byte_total :
      (c : Context)
      → Inside c
      → (o : Option ℕ) × (peek_byte c ≡ some (o, c)) × ((o ≡ none) ⊎ (0 < c.length))
  unfolding peek_byte
  peek_byte_total c i = elim (Bool-cases (c.length == 0)) [
    | inl e ↦ (none, rw e, inl refl)
    | inr e ↦ let (b, f) = ahead c.p refl (ground arith) in (some b, rw e f, inr (ground arith))
  ]
    where
      ahead : (p : List ℕ) → c.p ≡ p → 0 < c.length → (b : ℕ) × (front c p ≡ some (some b, c))
      ahead [] e h = absurd (nonempty c i h e)
      ahead (b ∷ rest) e h = (b, refl)

  skipped-Inside :
      (n : ℕ) (c : Context)
      → Inside c
      → n ≤ c.length
      → Inside (record c { length = c.length - n; p = drop n c.p })
  skipped-Inside n c i h = record {
    offset = i.offset + n;
    at_offset = ap (drop n) i.at_offset ∙ drop-drop i.offset n memory;
    within = omega (arith, i.within);
  }

  pub skip_bytes-Yields :
      (n : ℕ) (c : Context) → Inside c → Yields AnyBool c.length (skip_bytes n c)
  unfolding skip_bytes
  skip_bytes-Yields n c i = elim (Bool-cases (ltb c.length n)) [
    | inl e ↦ rw e (yields i (omega arith) tt)
    | inr e ↦ rw e (yields (skipped-Inside n c i (ltb-false c.length n e)) (omega arith) tt)
  ]

  pub skip_one-Yields :
      (c : Context) → Inside c → 0 < c.length → Yields AnyBool (c.length - 1) (skip_bytes 1 c)
  unfolding skip_bytes
  skip_one-Yields c i h = elim (Bool-cases (ltb c.length 1)) [
    | inl e ↦ absurd (omega (arith, ltb→lt c.length 1 e))
    | inr e ↦ rw e (yields (skipped-Inside 1 c i h) (omega arith) tt)
  ]

  length_octets-Yields :
      (n acc : ℕ) (c : Context) → Inside c → Yields AnyByte c.length (length_octets n acc c)
  unfolding length_octets
  length_octets-Yields zero acc c i = yields i (omega arith) tt
  length_octets-Yields (suc n) acc c i = Yields-bind _ (get_byte-Yields c i) (elim [
    | none ↦ λ d t j l. yields j l tt
    | some b ↦ λ d t j l. Yields-le l (length_octets-Yields n (shift_in acc b) d j)
  ])

  length_from-Yields :
      (o : Option ℕ) (c : Context) → Inside c → Yields AnyByte c.length (length_from o c)
  unfolding length_from
  length_from-Yields none c i = yields i (omega arith) tt
  length_from-Yields (some n) c i =
      Yields-if (n / 128 % 2 == 0) (pure (some n)) _ c (yields i (omega arith) tt) (
        Yields-if (leb 8 (n % 128)) (pure none) _ c (yields i (omega arith) tt)
          (length_octets-Yields (n % 128) 0 c i))

  pub decode_length-Yields : (c : Context) → Inside c → Yields AnyByte c.length (decode_length c)
  unfolding decode_length
  decode_length-Yields c i =
      Yields-bind length_from (get_byte-Yields c i)
        (λ o d t j l. Yields-le l (length_from-Yields o d j))
