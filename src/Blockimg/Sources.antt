-- ===== src/Blockimg/Sources.antt =====
-- updater/blockimg.cpp: what a load that succeeds at version 3 has verified.
use recovery.Base.{
  ℕ, ◌≡◌, refl, sym, ap, ◌∙◌, ◌⊎◌, inl, inr, Bool, true, false, Text, take, Option, none, some,
  if◌then◌else◌,
}
use recovery.Blockimg.Parsed.{WellFormed, WithinLimit}
use recovery.Blockimg.Machine.{Env, Machine, ◌>>◌, pure, attempt}
use recovery.Blockimg.Transfer.{size_of}
use recovery.Blockimg.Stashing.{load_stash}
use recovery.Blockimg.Saving.{succeeds}
use recovery.Blockimg.Load.{Loaded, stash_overlapping, load_interrupted, load_src_tgt_hashed}
use recovery.Blockimg.Keeps.{Keeps, bind-Keeps, get-Keeps, if-Keeps, done-Keeps, set_params-Keeps}
use recovery.Blockimg.Quiet.{write_stash_checked-Quiet}
use recovery.Blockimg.DryRun.Stashes.{load_stash-Same}
use recovery.Blockimg.DryRun.Loads.{load_src_tgt_version2-Same}
use recovery.Blockimg.Triple.{
  Triple, bind-Triple, then-Triple, get-Triple, pure-Triple, failed-Triple, if-Triple, given-Triple,
  exact-Triple, weaken-Triple, keeps-Triple, both-Triple, any-Triple, IfSome, attempt-Triple,
}
use recovery.Blockimg.Reads.{blocks_of, Holding, Holding-Quiet}
use recovery.Blockimg.Reads.Blocks.{hex_digest, verify_blocks-Digest, verify_target-Digest}
use recovery.Blockimg.Counting.{WellFormed-Counted}
use recovery.Blockimg.Verified.{
  Any, Verified, SomeVerified, load_stash-Verified, On, On-Triple, Sound,
  load_src_tgt_version2-Sound,
}

-- The front of the buffer has the digest: the source blocks, or, where source and target overlap,
-- blocks that were stashed under the digest.
abbrev pub SourceVerified : Env → Text → Loaded → Machine → Type 0
SourceVerified env srchash loaded m =
    (blocks : ℕ) × Verified env srchash blocks m
    × ((blocks ≡ loaded.src_blocks) ⊎ (loaded.overlap ≡ true))

-- What a load that succeeds tells of the device and of the buffer.
pub record Ready (env : Env) (device srchash tgthash : Text) (loaded : Loaded) (m : Machine)
    : Type 0 where
  pub untouched : m.device ≡ device
  pub accepted : WellFormed loaded.tgt
  pub written : loaded.completed ≡ true → hex_digest env (blocks_of device loaded.tgt) ≡ tgthash
  pub source : loaded.completed ≡ false → SourceVerified env srchash loaded m

module _ (env : Env) (device srchash : Text) where
  -- A stash of an interrupted command.
  abbrev Restored : Loaded → Loaded → Machine → Type 0
  Restored loaded l m =
      On device m × (l ≡ loaded) × SomeVerified env srchash m × (loaded.overlap ≡ true)

  abbrev Stashed : Loaded → Machine → Type 0
  Stashed loaded m = On device m × SomeVerified env srchash m × (loaded.overlap ≡ true)

  restored :
      (loaded : Loaded) (base : Text) (overlap : Bool)
      → overlap ≡ loaded.overlap
      → Triple
          (On device)
          (if overlap then attempt (load_stash env base srchash true) else pure none)
          (IfSome (λ _. Stashed loaded))
  restored loaded base overlap e =
      if-Triple overlap
        (λ o.
          attempt-Triple (λ _. Stashed loaded)
            (weaken-Triple (On device) (λ _ m. On device m × SomeVerified env srchash m) (λ m d. d)
              (λ a m x. (x.0, x.1, sym e ∙ o))
              (both-Triple (λ _. On device) (λ _. SomeVerified env srchash)
                (On-Triple device (λ w. load_stash-Same env base srchash true))
                (weaken-Triple Any (λ _. SomeVerified env srchash) (λ m d. tt) (λ a m v. v)
                  (load_stash-Verified env base srchash)))))
        (λ o. pure-Triple none (λ m d. tt))

  succeeded :
      (loaded : Loaded) (r : Option (Unit {0})) (m : Machine)
      → succeeds r ≡ true
      → IfSome (λ _. Stashed loaded) r m
      → Stashed loaded m
  succeeded loaded none m e h = cc
  succeeded loaded (some _) m e h = h

  load_interrupted-Restored :
      (loaded : Loaded) → Triple (On device) (load_interrupted env srchash loaded) (Restored loaded)
  unfolding load_interrupted
  load_interrupted-Restored loaded = get-Triple (λ m d.
      weaken-Triple (On device) (Restored loaded) (λ s e. ap (λ (t : Machine). t.device) e ∙ d)
        (λ l s x. x)
        (bind-Triple (IfSome (λ _. Stashed loaded))
          (restored loaded m.params.stashbase loaded.overlap refl)
          (λ r.
            if-Triple (succeeds r)
              (λ e.
                pure-Triple loaded
                  (λ s x. let st = succeeded loaded r s e x in (st.0, refl, st.1, st.2)))
              (λ e. then-Triple Any any-Triple failed-Triple))))

  stash_overlapping-Holding :
      (buffer : Text) (loaded : Loaded)
      → Keeps (Holding device buffer) (stash_overlapping env srchash loaded)
  unfolding stash_overlapping
  stash_overlapping-Holding buffer loaded = get-Keeps (λ m i.
      if-Keeps _
        (bind-Keeps (write_stash_checked-Quiet (Holding-Quiet device buffer) env _ _ _)
          (λ exists. set_params-Keeps _ (λ s j. j)))
        done-Keeps)

module _ (env : Env) (limits : WithinLimit env.parse_uint) (device srchash tgthash : Text) where
  -- What is known before the digests are looked at.
  abbrev Found : Loaded → Machine → Type 0
  Found loaded m = On device m × Sound env limits loaded m

  not_completed : {X : Type 0} {b : Bool} → b ≡ false → b ≡ true → X
  not_completed e h = absurd (cc)

  -- The source blocks are right, or a stash has them.
  source-Ready :
      (loaded : Loaded) (buffer : Text) (right : Bool)
      → WellFormed loaded.tgt
      → loaded.completed ≡ false
      → Triple
          (λ m.
            Holding device buffer m
            × (right ≡ true → hex_digest env (take (size_of loaded.src_blocks) buffer) ≡ srchash))
          (if right
            then stash_overlapping env srchash loaded >> pure loaded
            else load_interrupted env srchash loaded)
          (Ready env device srchash tgthash)
  source-Ready loaded buffer right w c =
      if-Triple right
        (λ e. given-Triple (λ m x.
          then-Triple (Holding device buffer)
            (weaken-Triple (Holding device buffer) (λ _. Holding device buffer) (λ s y. y.0)
              (λ a s y. y)
              (keeps-Triple (stash_overlapping-Holding env device srchash buffer loaded)))
            (pure-Triple loaded (λ s y. record {
              untouched = y.0;
              accepted = w;
              written = λ h. not_completed c h;
              source = λ h. (
                loaded.src_blocks,
                ap (λ (b : Text). hex_digest env (take (size_of loaded.src_blocks) b)) y.1 ∙ x.1 e,
                inl refl,
              );
            }))))
        (λ e.
          weaken-Triple (On device) (Restored env device srchash loaded) (λ s y. y.0.0)
            (λ l s y. record {
              untouched = y.0;
              accepted = rw y.1 w;
              written = λ h. not_completed c (ap (λ (t : Loaded). t.completed) (sym y.1) ∙ h);
              source = λ h. (y.2.0, y.2.1, inr (ap (λ (t : Loaded). t.overlap) y.1 ∙ y.3));
            })
            (load_interrupted-Restored env device srchash loaded))

  pub load_src_tgt_hashed-Ready :
      Triple
        (On device)
        (load_src_tgt_hashed env srchash tgthash)
        (Ready env device srchash tgthash)
  unfolding load_src_tgt_hashed
  load_src_tgt_hashed-Ready = get-Triple (λ m d.
      bind-Triple Found
        (weaken-Triple (On device) Found (λ s e. ap (λ (t : Machine). t.device) e ∙ d) (λ a s x. x)
          (both-Triple (λ _. On device) (Sound env limits)
            (On-Triple device (λ w. load_src_tgt_version2-Same env m.params.stashbase))
            (weaken-Triple Any (Sound env limits) (λ s x. tt) (λ a s x. x)
              (load_src_tgt_version2-Sound env limits m.params.stashbase))))
        (λ loaded. exact-Triple (λ s x.
          bind-Triple
            (λ written t.
              Holding device s.buffer t
              × (written ≡ true → hex_digest env (blocks_of device loaded.tgt) ≡ tgthash))
            (weaken-Triple (Holding device s.buffer) _
              (λ t e. (ap (λ (u : Machine). u.device) e ∙ x.0, ap (λ (u : Machine). u.buffer) e))
              (λ a t y. y)
              (verify_target-Digest env device tgthash s.buffer loaded.tgt
                (WellFormed-Counted loaded.tgt x.1.0)))
            (λ written.
              if-Triple written
                (λ e. pure-Triple _ (λ t y. record {
                  untouched = y.0.0;
                  accepted = x.1.0;
                  written = λ h. y.1 e;
                  source = λ h. absurd (cc);
                }))
                (λ e.
                  bind-Triple
                    (λ right t.
                      Holding device s.buffer t
                      × (right ≡ true
                          → hex_digest env (take (size_of loaded.src_blocks) s.buffer) ≡ srchash))
                    (weaken-Triple (Holding device s.buffer) _ (λ t y. y.0) (λ a t y. y)
                      (verify_blocks-Digest env device srchash loaded.src_blocks s.buffer))
                    (λ right. source-Ready loaded s.buffer right x.1.0 x.1.1))))))
