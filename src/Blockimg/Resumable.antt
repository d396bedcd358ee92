-- ===== src/Blockimg/Resumable.antt =====
-- updater/blockimg.cpp: the target's hash after a move that succeeds.
use recovery.Base.{
  ℕ, ◌*◌, ◌^◌, ◌≤◌, ◌<◌, ◌==◌, ◌≡◌, refl, sym, ap, ◌∙◌, inl, inr, Bool, true, false, not, ◌&&◌,
  take, Text, get_elem?, some, arith,
}
use mathlib.Core.Path.{subst}
use recovery.Blockimg.Ranges.{block_size}
use recovery.Blockimg.Parsed.{WithinLimit}
use recovery.Blockimg.Machine.{Env, Machine, Outcome, ok, M, and_then, ◌>>=◌, get, set_params}
use recovery.Blockimg.Transfer.{size_of, write_blocks}
use recovery.Blockimg.Load.{Loaded, load_src_tgt_version3}
use recovery.Blockimg.Commands.{load_src_tgt, free_own_stash, perform_loaded, perform_command_move}
use recovery.Blockimg.Keeps.{
  Keeps, bind-Keeps, then-Keeps, get-Keeps, done-Keeps, if-Keeps, set_params-Keeps, attempt-Keeps,
}
use recovery.Blockimg.Quiet.{Quiet, free_stash-Quiet}
use recovery.Blockimg.DryRun.{Same}
use recovery.Blockimg.DryRun.Loads.{load_src_tgt_version3-Same}
use recovery.Blockimg.Triple.{
  Triple, then-Triple, get-Triple, if-Triple, weaken-Triple, done-Triple, keeps-Triple, run-Triple,
}
use recovery.Blockimg.Reads.{blocks_of, Holding}
use recovery.Blockimg.Reads.Blocks.{total_size, hex_digest}
use recovery.Blockimg.Counting.{WellFormed-Counted}
use recovery.Blockimg.Verified.{On}
use recovery.Blockimg.Sources.{Ready, SourceVerified}
use recovery.Blockimg.Version3.{LoadedBy, load_src_tgt_version3-LoadedBy}
use recovery.Blockimg.Targets.{Disjoint, WroteRanges, write_blocks-Wrote}

free_own_stash-On : (env : Env) (bytes : Text) → Keeps (On bytes) (free_own_stash env)
unfolding free_own_stash
free_own_stash-On env bytes = get-Keeps (λ m i. if-Keeps _ done-Keeps (
    bind-Keeps (attempt-Keeps (free_stash-Quiet quiet env _ _))
      (λ freed. set_params-Keeps _ (λ s j. j))))
  where
    quiet : Quiet (On bytes)
    quiet = record {
      ticks = λ m n i. i;
      causes = λ m c i. i;
      offsets = λ m n i. i;
      states = λ m s i. i;
      files = λ m f i. i;
      dirs = λ m d i. i;
    }

size_of-eq : (n : ℕ) → n * block_size < 2 ^ 64 → size_of n ≡ n * block_size
size_of-eq n h = omega arith

-- A loaded command whose source has as many blocks as its target, which is no overlap of the two
-- and in which no block comes twice; and its bytes can be counted.
pub record Plain (loaded : Loaded) : Type 0 where
  pub apart : loaded.overlap ≡ false
  pub even : loaded.src_blocks ≡ loaded.tgt.size
  pub disjoint : Disjoint loaded.tgt
  pub counted : loaded.tgt.size * block_size < 2 ^ 64

module _ (env : Env) (loaded : Loaded) (plain : Plain loaded) (hash : Text) where
  -- The target has the hash.
  abbrev Right : Machine → Type 0
  Right m = hex_digest env (blocks_of m.device loaded.tgt) ≡ hash

  written :
      (before m : Machine) (bytes : Text)
      → Ready env bytes hash hash loaded before
      → loaded.completed ≡ false
      → WroteRanges loaded.tgt 0 loaded.tgt.count 0 bytes before.buffer m.device
      → Right m
  unfolding blocks_of
  written before m bytes r c w = found (r.source c)
    where
      whole :
          (blocks : ℕ)
          → blocks ≡ loaded.tgt.size
          → total_size loaded.tgt 0 loaded.tgt.count ≡ size_of blocks
      whole blocks e =
          WellFormed-Counted loaded.tgt r.accepted
          ∙ sym (size_of-eq loaded.tgt.size plain.counted)
          ∙ ap size_of (sym e)

      found : SourceVerified env hash loaded before → Right m
      found (blocks, v, inl e) =
          ap (hex_digest env)
            (w.contents ∙ ap (λ (n : ℕ). take n before.buffer) (whole blocks (e ∙ plain.even)))
          ∙ v
      found (blocks, v, inr o) = absurd (cc (plain.apart))

  -- The flag is not touched by the load.
  abbrev Writing : Text → Machine → Machine → Type 0
  Writing bytes before m = Holding bytes before.buffer m × (m.params.canwrite ≡ true)

  not_completed : (w c : Bool) → w && not c ≡ true → c ≡ false
  not_completed w true e = absurd (cc (e, and_false w))
    where
      and_false : (b : Bool) → b && false ≡ false
      and_false true = refl
      and_false false = refl
  not_completed w false e = refl

  is_completed : (w c : Bool) → w ≡ true → w && not c ≡ false → c ≡ true
  is_completed true true h e = refl
  is_completed true false h e = absurd (cc (e))
  is_completed false c h e = absurd (cc (h))

  perform_loaded-Right :
      (before : Machine) (bytes : Text)
      → Ready env bytes hash hash loaded before
      → before.params.canwrite ≡ true
      → Triple
          (λ s. s ≡ before)
          (perform_loaded env loaded (write_blocks env loaded.tgt))
          (λ _. Right)
  unfolding perform_loaded set_params
  perform_loaded-Right before bytes r c =
      then-Triple (Writing bytes before)
        (record {
          holds = λ s e. (
            (ap (λ (t : Machine). t.device) e ∙ r.untouched, ap (λ (t : Machine). t.buffer) e),
            ap (λ (t : Machine). t.params.canwrite) e ∙ c,
          );
        })
        (get-Triple (λ m h.
          then-Triple Right
            (weaken-Triple (Holding bytes before.buffer) (λ _. Right)
              (λ s e. (
                ap (λ (t : Machine). t.device) e ∙ h.0.0,
                ap (λ (t : Machine). t.buffer) e ∙ h.0.1,
              ))
              (λ u s x. x)
              (if-Triple (m.params.canwrite && not loaded.completed)
                (λ e.
                  weaken-Triple (Holding bytes before.buffer) _ (λ s x. x)
                    (λ u s x.
                      written before s bytes r (not_completed m.params.canwrite loaded.completed e)
                        x.0)
                    (write_blocks-Wrote env loaded.tgt plain.disjoint bytes before.buffer))
                (λ e. done-Triple (λ s x.
                  ap (λ (t : Text). hex_digest env (blocks_of t loaded.tgt)) x.0
                  ∙ r.written (is_completed m.params.canwrite loaded.completed h.1 e)))))
            (keeps-Triple (then-Keeps own (set_params-Keeps _ (λ s j. j))))))
    where
      own : Keeps Right (free_own_stash env)
      own = record {
        keeps = λ m j.
            ap (λ (t : Text). hex_digest env (blocks_of t loaded.tgt))
              ((free_own_stash-On env m.device).keeps m refl)
            ∙ j;
      }

-- What is said of a call that goes on from a known result.
goes_on :
    {A B : Type 0} (f : M A) (g : A → M B) (m m' : Machine) (a : A)
    → f m ≡ (ok a, m')
    → (f >>= g) m ≡ g a m'
unfolding ◌>>=◌
goes_on f g m m' a e = ap (and_then g) e

module _ (env : Env) (limits : WithinLimit env.parse_uint) where
  loads_version3 :
      (onehash : Bool) (m : Machine)
      → 3 ≤ m.params.version
      → load_src_tgt env onehash m ≡ load_src_tgt_version3 env onehash m
  unfolding load_src_tgt ◌>>=◌ get
  loads_version3 onehash m h =
      rw (let e : (m.params.version == 1) ≡ false = ground arith in e)
        (rw (let e : (m.params.version == 2) ≡ false = ground arith in e) refl)

  -- The target has the hash that stands at the place of the tokens that was to be read.
  abbrev pub TargetHashed : Machine → Loaded → Machine → Type 0
  TargetHashed m loaded m' =
      (hash : Text) × (get_elem? m.params.tokens m.params.cpos ≡ some hash)
      × (hex_digest env (blocks_of m'.device loaded.tgt) ≡ hash)

  -- A move at version 3 or later, of a run that writes, that succeeds: where the load finds source and
  -- target apart and equal in size, no block twice in the target, and the target's bytes in number
  -- below 2 ^ 64, the target's blocks on the device then have the hash that the command names, whether
  -- they were written now or by an earlier run. `ParseUint` keeps to its limit.
  pub perform_command_move-TargetHashed :
      (m m1 m' : Machine) (loaded : Loaded)
      → m.params.canwrite ≡ true
      → 3 ≤ m.params.version
      → load_src_tgt_version3 env true m ≡ (ok loaded, m1)
      → Plain loaded
      → perform_command_move env m ≡ (ok tt, m')
      → TargetHashed m loaded m'
  unfolding perform_command_move
  perform_command_move-TargetHashed m m1 m' loaded w v l plain e =
      moved (load_src_tgt_version3-LoadedBy env limits true m m1 loaded l)
    where
      rest : perform_loaded env loaded (write_blocks env loaded.tgt) m1 ≡ (ok tt, m')
      rest = sym (goes_on (load_src_tgt env true) _ m m1 loaded (loads_version3 true m v ∙ l)) ∙ e

      kept : Same true m.device m1
      kept =
          rw (← ap (λ (r : Outcome Loaded × Machine). r.1) l)
            ((load_src_tgt_version3-Same env true).keeps m (w, refl))

      moved : LoadedBy env limits m true loaded m1 → TargetHashed m loaded m'
      moved (srchash, tgthash, t, r) = (
        srchash,
        t.0,
        run-Triple _ (λ _. Right env loaded plain srchash) m1 m' tt
            (perform_loaded-Right env loaded plain srchash m1 m.device (same srchash tgthash t r)
              kept.0)
            refl rest,
      )
        where
          same :
              (s t : Text)
              → (get_elem? m.params.tokens m.params.cpos ≡ some s)
                × (get_elem? m.params.tokens m.params.cpos ≡ some t)
              → Ready env m.device s t loaded m1
              → Ready env m.device s s loaded m1
          same s t h r =
              let e : t ≡ s = cc (h.0, h.1) in subst (λ u. Ready env m.device s u loaded m1) e r
