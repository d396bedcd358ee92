-- ===== src/Uncrypt/Window.antt =====
-- uncrypt/uncrypt.cpp: what holds of the window between two rounds of the loops of `produce_block_map`.
use recovery.Base.{
  ℕ, suc, zero, ◌+◌, ◌-◌, ◌*◌, ◌%◌, ◌≤◌, ◌<◌, ◌==◌, ◌≡◌, ◌≢◌, refl, sym, ap, ◌∙◌, ◌⊎◌, inl, inr,
  ltb, Bool, true, false, not, ◌&&◌, ◌++◌, List, [], ◌∷◌, Option, none, some, Text, if◌then◌else◌,
  arith,
}
use mathlib.Core.Path.{subst}
use recovery.ErrorCode.{uncrypt_write_error, uncrypt_read_error}
use recovery.Uncrypt.Defs.{
  window_size, System, Result, ok, error, fault, and_then, Window, moved_on, write_mapped,
  write_head, make_room, to_read, read_tail,
}
use recovery.Uncrypt.Listed.{listed, Paired, add_block_to_ranges-Longer}

-- The first `n` blocks of the file, as the system maps them.
pub data Blocks (system : System) : ℕ → List ℕ → Type 0 where
  empty : Blocks system 0 []
  next :
      {n b : ℕ} {blocks : List ℕ}
      → Blocks system n blocks
      → system.fibmap n ≡ some b
      → Blocks system (n + 1) (blocks ++ b ∷ [])

-- A statement of the result, if there is one.
abbrev pub Post : {A : Type 0} → (A → Type 0) → Result A → Type 0
Post Q (ok a) = Q a
Post Q (error code) = Unit
Post Q fault = Unit

pub Post-and_then :
    {A B : Type 0} (R : A → Type 0) (Q : B → Type 0) (f : A → Result B) (r : Result A)
    → Post R r
    → ((a : A) → R a → Post Q (f a))
    → Post Q (and_then f r)
unfolding and_then
Post-and_then R Q f (ok a) h k = k a h
Post-and_then R Q f (error code) h k = tt
Post-and_then R Q f fault h k = tt

pub Post-weaken :
    {A : Type 0} (R Q : A → Type 0) (r : Result A) → ((a : A) → R a → Q a) → Post R r → Post Q r
Post-weaken R Q (ok a) k h = k a h
Post-weaken R Q (error code) k h = tt
Post-weaken R Q fault k h = tt

pub if-post :
    {A : Type 0} (Q : A → Type 0) (c : Bool) (r s : Result A)
    → (c ≡ true → Post Q r)
    → (c ≡ false → Post Q s)
    → Post Q (if c then r else s)
if-post Q true r s h k = h refl
if-post Q false r s h k = k refl

-- What the tests say.
pub equal : (a b : ℕ) → (a == b) ≡ true → a ≡ b
equal a b e = ground arith

pub unequal : (a b : ℕ) → (a == b) ≡ false → a ≢ b
unequal a b e h = ground arith

module _ (system : System) (size blksize : ℕ) (encrypted : Bool) where
  -- The ranges are those of the blocks that were written out; `waiting` more were read.
  pub record Sound (w : Window) (waiting : ℕ) : Type 0 where
    pub paired : Paired w.ranges
    pub blocks : Blocks system w.head_block (listed w.ranges)
    pub inside : w.head < 5
    pub few : waiting ≤ 4
    pub round : (w.head + waiting) % 5 ≡ w.tail
    pub behind : w.pos ≤ (w.head_block + waiting) * blksize
    pub needed : (w.head_block + waiting) * blksize < size + blksize
    pub at : (size ≤ w.pos) ⊎ (w.pos ≡ (w.head_block + waiting) * blksize)

  pub write_head-Sound :
      (w : Window) (waiting : ℕ)
      → Sound w (suc waiting)
      → Post (λ v. Sound v waiting × (v.pos ≡ w.pos)) (write_head system size blksize encrypted w)
  unfolding write_head
  write_head-Sound w waiting h = mapped (system.fibmap w.head_block) refl
    where
      mapped :
          (o : Option ℕ)
          → system.fibmap w.head_block ≡ o
          → Post
              (λ v. Sound v waiting × (v.pos ≡ w.pos))
              (write_mapped system size blksize encrypted w o)
      mapped none e = tt
      mapped (some b) e =
          if-post (λ v. Sound v waiting × (v.pos ≡ w.pos))
            (encrypted && not (system.writes_block (blksize * b))) (error uncrypt_write_error)
            (ok (moved_on system size blksize encrypted b w)) (λ c. tt)
            (λ c.
              let longer = add_block_to_ranges-Longer w.ranges b h.paired in
              let same : w.head_block + 1 + waiting ≡ w.head_block + suc waiting = omega arith in
              (
                record {
                  paired = longer.0;
                  blocks =
                      subst (λ t. Blocks system (w.head_block + 1) t) (sym longer.1)
                        (next h.blocks e);
                  inside = omega arith;
                  few = omega (arith, h.few);
                  round = omega (arith, h.round, h.inside);
                  behind = rw same h.behind;
                  needed = rw same h.needed;
                  at = rw same h.at;
                },
                refl,
              ))

  -- A window that has room for one more block.
  abbrev pub Roomy : ℕ → Window → Type 0
  Roomy pos v = (waiting : ℕ) × Sound v waiting × (waiting ≤ 3) × (v.pos ≡ pos)

  pub make_room-Roomy :
      (w : Window) (waiting : ℕ)
      → Sound w waiting
      → Post (Roomy w.pos) (make_room system size blksize encrypted w)
  unfolding make_room
  make_room-Roomy w zero h =
      if-post (Roomy w.pos) ((w.tail + 1) % window_size == w.head)
        (write_head system size blksize encrypted w) (ok w)
        (λ c. absurd (omega (arith, h.round, h.inside, equal _ _ c)))
        (λ c. (0, h, omega arith, refl))
  make_room-Roomy w (suc waiting) h =
      if-post (Roomy w.pos) ((w.tail + 1) % window_size == w.head)
        (write_head system size blksize encrypted w) (ok w)
        (λ c.
          Post-weaken (λ v. Sound v waiting × (v.pos ≡ w.pos)) (Roomy w.pos)
            (write_head system size blksize encrypted w)
            (λ v x. (waiting, x.0, omega (arith, h.few), x.1)) (write_head-Sound w waiting h))
        (λ c. (suc waiting, h, omega (arith, h.round, h.inside, h.few, unequal _ _ c), refl))

  -- A block is read, or what is left of the file.
  advanced :
      (w : Window) (waiting : ℕ) (buffers : List Text) (n : ℕ)
      → Sound w waiting
      → waiting ≤ 3
      → w.pos < size
      → n ≤ blksize
      → (size ≤ w.pos + n) ⊎ (n ≡ blksize)
      → Sound
          (record w { buffers = buffers; pos = w.pos + n; tail = (w.tail + 1) % window_size })
          (suc waiting)
  advanced w waiting buffers n h l p k m = record {
    paired = h.paired;
    blocks = h.blocks;
    inside = h.inside;
    few = omega arith;
    round = omega (arith, h.round, h.inside);
    behind = omega (arith, one_more, h.behind, k);
    needed = omega (arith, one_more, here h.at);
    at = there m;
  }
    where
      one_more :
          (w.head_block + suc waiting) * blksize ≡ (w.head_block + waiting) * blksize + blksize
      one_more =
          ap (λ (r : ℕ). r * blksize)
            (let e : w.head_block + suc waiting ≡ suc (w.head_block + waiting) = omega arith in e)
          ∙ omega arith

      here :
          (size ≤ w.pos) ⊎ (w.pos ≡ (w.head_block + waiting) * blksize)
          → w.pos ≡ (w.head_block + waiting) * blksize
      here (inl e) = absurd (omega (arith, e))
      here (inr e) = e

      there :
          (size ≤ w.pos + n) ⊎ (n ≡ blksize)
          → (size ≤ w.pos + n) ⊎ (w.pos + n ≡ (w.head_block + suc waiting) * blksize)
      there (inl e) = inl e
      there (inr e) = inr (omega (arith, one_more, here h.at, e))

  abbrev pub Further : ℕ → ℕ → Window → Type 0
  Further waiting pos v = Sound v (suc waiting) × (pos < v.pos)

  pub read_tail-Further :
      (w : Window) (waiting : ℕ)
      → Sound w waiting
      → waiting ≤ 3
      → w.pos < size
      → 0 < blksize
      → Post (Further waiting w.pos) (read_tail system size blksize encrypted w)
  unfolding read_tail
  read_tail-Further w waiting h l p z =
      if-post (Further waiting w.pos) (not encrypted) (ok _) _
        (λ c. (advanced w waiting w.buffers blksize h l p (omega arith) (inr refl), omega arith))
        (λ c.
          if-post (Further waiting w.pos) (not (system.reads w.pos)) (error uncrypt_read_error)
            (ok _) (λ d. tt)
            (λ d. (
              advanced w waiting _ (to_read system size blksize encrypted w) h l p (ground arith)
                  (part (size - w.pos) (ltb blksize (size - w.pos)) (omega arith)),
              ground arith,
            )))
    where
      part :
          (left : ℕ) (b : Bool)
          → size ≤ w.pos + left
          → (size ≤ w.pos + (if b then blksize else left))
            ⊎ ((if b then blksize else left) ≡ blksize)
      part left true e = inr refl
      part left false e = inl e
