-- ===== src/Uncrypt/Collected.antt =====
-- uncrypt/uncrypt.cpp: the map has every block of the package, once and in order, although the blocks go
-- through a window.
use recovery.Base.{
  ℕ, suc, zero, ◌+◌, ◌*◌, ◌≤◌, ◌<◌, ◌==◌, ◌≡◌, refl, ◌∙◌, inr, ltb, Bool, ltb→lt, ltb-false, arith,
}
use recovery.Uncrypt.Defs.{
  window_size, System, ok, Window, write_head, make_room, read_tail, fill_loop, drain_loop,
  start_window, collect,
}
use recovery.Uncrypt.Listed.{listed, Paired, no_range}
use recovery.Uncrypt.Window.{
  Blocks, empty, Post, Post-and_then, Post-weaken, if-post, equal, unequal, Sound, Roomy, Further,
  write_head-Sound, make_room-Roomy, read_tail-Further,
}

module _ (system : System) (size blksize : ℕ) (encrypted : Bool) where
  -- All of the file is read.
  abbrev ReadUp : Window → Type 0
  ReadUp v = (left : ℕ) × Sound system size blksize encrypted v left × (size ≤ v.pos)

  fill_loop-ReadUp :
      (fuel : ℕ) (w : Window) (waiting : ℕ)
      → Sound system size blksize encrypted w waiting
      → size ≤ w.pos + fuel
      → 0 < blksize
      → Post ReadUp (fill_loop system size blksize encrypted fuel w)
  unfolding fill_loop
  fill_loop-ReadUp zero w waiting h f z = (waiting, h, omega arith)
  fill_loop-ReadUp (suc fuel) w waiting h f z =
      if-post ReadUp (ltb w.pos size) _ (ok w)
        (λ c.
          Post-and_then (Roomy system size blksize encrypted w.pos) ReadUp _
            (make_room system size blksize encrypted w)
            (make_room-Roomy system size blksize encrypted w waiting h)
            (λ v r.
              Post-and_then (Further system size blksize encrypted r.0 v.pos) ReadUp _
                (read_tail system size blksize encrypted v)
                (read_tail-Further system size blksize encrypted v r.0 r.1 r.2
                  (omega (arith, r.3, ltb→lt _ _ c)) z)
                (λ u k. fill_loop-ReadUp fuel u (suc r.0) k.0 (omega (arith, k.1, r.3)) z)))
        (λ c. (waiting, h, ltb-false _ _ c))

  abbrev Drained : ℕ → Window → Type 0
  Drained pos v = Sound system size blksize encrypted v 0 × (v.pos ≡ pos)

  drain_loop-Drained :
      (fuel : ℕ) (w : Window) (waiting : ℕ)
      → Sound system size blksize encrypted w waiting
      → waiting ≤ fuel
      → Post (Drained w.pos) (drain_loop system size blksize encrypted fuel w)
  unfolding drain_loop
  drain_loop-Drained zero w zero h f = (h, refl)
  drain_loop-Drained zero w (suc waiting) h f = absurd (omega arith)
  drain_loop-Drained (suc fuel) w zero h f =
      if-post (Drained w.pos) (w.head == w.tail) (ok w) _ (λ c. (h, refl))
        (λ c. absurd (omega (arith, h.round, h.inside, unequal _ _ c)))
  drain_loop-Drained (suc fuel) w (suc waiting) h f =
      if-post (Drained w.pos) (w.head == w.tail) (ok w) _
        (λ c. absurd (omega (arith, h.round, h.inside, h.few, equal _ _ c)))
        (λ c.
          Post-and_then (λ v. Sound system size blksize encrypted v waiting × (v.pos ≡ w.pos))
            (Drained w.pos) _ (write_head system size blksize encrypted w)
            (write_head-Sound system size blksize encrypted w waiting h)
            (λ v x.
              Post-weaken (Drained v.pos) (Drained w.pos) _ (λ u y. (y.0, y.1 ∙ x.1))
                (drain_loop-Drained fuel v waiting x.0 (omega arith))))

  -- The ranges name the blocks of the whole file, each once and in order.
  pub record Complete (w : Window) : Type 0 where
    pub paired : Paired w.ranges
    pub blocks : Blocks system w.head_block (listed w.ranges)
    pub enough : size ≤ w.head_block * blksize
    pub needed : w.head_block * blksize < size + blksize

  started :
      0 < blksize
      → Sound system size blksize encrypted (start_window system size blksize encrypted) 0
  unfolding start_window listed
  started z = record {
    paired = no_range;
    blocks = empty;
    inside = omega arith;
    few = omega arith;
    round = refl;
    behind = omega arith;
    needed = omega arith;
    at = inr (omega arith);
  }

  pub collect-Complete : 0 < blksize → Post Complete (collect system size blksize encrypted)
  unfolding collect start_window
  collect-Complete z =
      Post-and_then ReadUp Complete _
        (fill_loop system size blksize encrypted size (start_window system size blksize encrypted))
        (fill_loop-ReadUp size (start_window system size blksize encrypted) 0 (started z)
          (omega arith) z)
        (λ v r.
          Post-weaken (Drained v.pos) Complete _
            (λ u x. record {
              paired = x.0.paired;
              blocks = x.0.blocks;
              enough = omega (arith, x.0.behind, x.1, r.2);
              needed = omega (arith, x.0.needed);
            })
            (drain_loop-Drained window_size v r.0 r.1 (omega (arith, r.1.few))))
