-- ===== src/Blockimg/Verified.antt =====
-- updater/blockimg.cpp: what a load that succeeds at version 3 has verified.
use recovery.Base.{
  ℕ, ◌/◌, ◌%◌, ◌==◌, ◌≡◌, refl, ap, ◌∙◌, Bool, true, false, not, ◌&&◌, [], is_empty, Text, take,
  length, Option, none, some, if◌then◌else◌,
}
use recovery.Blockimg.Ranges.{RangeSet, block_size}
use recovery.Blockimg.Parsed.{WellFormed, WithinLimit, parse_range-WellFormed}
use recovery.Blockimg.Machine.{Env, Machine, failed, M, ◌>>=◌, ◌>>◌, done, stop}
use recovery.Blockimg.Transfer.{size_of, verify_blocks}
use recovery.Blockimg.Stash.{delete_file, get_stash_file_name, Stat, found, missing, error}
use recovery.Blockimg.Stashing.{
  load_source, load_bytes, load_found, load_file, load_from, load_stash,
}
use recovery.Blockimg.Saving.{range_or_exit, parse_or_exit}
use recovery.Blockimg.Load.{Loaded, load_src_tgt_version2}
use recovery.Blockimg.Keeps.{Keeps}
use recovery.Blockimg.DryRun.{Same}
use recovery.Blockimg.Triple.{
  Triple, bind-Triple, then-Triple, get-Triple, pure-Triple, failed-Triple, exited-Triple,
  if-Triple, given-Triple, exact-Triple, weaken-Triple, done-Triple, keeps-Triple, any-Triple,
}
use recovery.Blockimg.Reads.{Holding}
use recovery.Blockimg.Reads.Blocks.{hex_digest, verify_blocks-Digest}

abbrev pub Any : Machine → Type 0
Any m = Unit {0}

-- The front of the buffer, of some number of whole blocks, has the digest.
abbrev pub Verified : Env → Text → ℕ → Machine → Type 0
Verified env hash blocks m = hex_digest env (take (size_of blocks) m.buffer) ≡ hash

module _ (env : Env) where
  -- A test of the buffer, and what follows it.
  verify_then :
      (hash : Text) (blocks : ℕ) (g : Bool → M (Unit {0}))
      → ((right : Bool)
          → Triple
              (λ s. right ≡ true → Verified env hash blocks s)
              (g right)
              (λ _. Verified env hash blocks))
      → Triple Any (verify_blocks env hash blocks >>= g) (λ _. Verified env hash blocks)
  verify_then hash blocks g h = exact-Triple (λ m i.
      bind-Triple (λ right s. right ≡ true → Verified env hash blocks s)
        (weaken-Triple (Holding m.device m.buffer)
          (λ right s.
            Holding m.device m.buffer s
            × (right ≡ true → hex_digest env (take (size_of blocks) m.buffer) ≡ hash))
          (λ s e. (ap (λ (t : Machine). t.device) e, ap (λ (t : Machine). t.buffer) e))
          (λ right s x e. ap (λ (b : Text). hex_digest env (take (size_of blocks) b)) x.0.1 ∙ x.1 e)
          (verify_blocks-Digest env m.device hash blocks m.buffer))
        h)

  abbrev pub SomeVerified : Text → Machine → Type 0
  SomeVerified hash m = (blocks : ℕ) × Verified env hash blocks m

  some_verified :
      {P : Machine → Type 0} {f : M (Unit {0})} (hash : Text) (blocks : ℕ)
      → Triple P f (λ _. Verified env hash blocks)
      → Triple P f (λ _. SomeVerified hash)
  some_verified {P} hash blocks h = weaken-Triple P _ (λ m p. p) (λ a m v. (blocks, v)) h

  load_source-Verified :
      (id : Text) (src : RangeSet) → Triple Any (load_source env id src) (λ _. SomeVerified id)
  unfolding load_source
  load_source-Verified id src = some_verified id src.size (
      then-Triple Any any-Triple (
        then-Triple Any any-Triple (
          verify_then id src.size _
            (λ right. if-Triple right (λ e. done-Triple (λ s x. x e)) (λ e. failed-Triple)))))

  accepted : (right : Bool) → not right ≡ false → right ≡ true
  accepted true r = refl
  accepted false r = cc

  checked :
      (id name : Text) (blocks : ℕ)
      → Triple Any
          (verify_blocks env id blocks >>= λ right.
            if true && not right then delete_file env name >> stop {A = Unit {0}} failed else done)
          (λ _. Verified env id blocks)
  checked id name blocks = verify_then id blocks _ (λ right.
      if-Triple (true && not right) (λ w. then-Triple Any any-Triple failed-Triple)
        (λ r. done-Triple (λ s x. x (accepted right r))))

  load_bytes-Verified :
      (id name content : Text)
      → Triple Any (load_bytes env id name true content) (λ _. SomeVerified id)
  unfolding load_bytes
  load_bytes-Verified id name content =
      if-Triple (not (length content % block_size == 0)) (λ e. failed-Triple)
        (λ e. then-Triple Any any-Triple (
          then-Triple Any any-Triple (
            bind-Triple (λ _. Any) any-Triple
              (λ bytes.
                then-Triple Any any-Triple
                  (some_verified id (length content / block_size) (checked id name _))))))

  load_found-Verified :
      (id name : Text) (stat : Stat)
      → Triple Any (load_found env id name true stat) (λ _. SomeVerified id)
  load_found-Verified id name (found content) = load_bytes-Verified id name content
  load_found-Verified id name missing = failed-Triple
  load_found-Verified id name error = failed-Triple

  load_file-Verified :
      (base id : Text) → Triple Any (load_file env base id true) (λ _. SomeVerified id)
  unfolding load_file
  load_file-Verified base id =
      if-Triple (is_empty base) (λ e. failed-Triple)
        (λ e.
          bind-Triple (λ _. Any) any-Triple
            (load_found-Verified id (get_stash_file_name base id [])))

  load_from-Verified :
      (base id : Text) (saved : Option RangeSet)
      → Triple Any (load_from env base id true saved) (λ _. SomeVerified id)
  load_from-Verified base id none = load_file-Verified base id
  load_from-Verified base id (some src) = load_source-Verified id src

  -- A stash that is loaded with its test has the digest by which it is named.
  pub load_stash-Verified :
      (base id : Text) → Triple Any (load_stash env base id true) (λ _. SomeVerified id)
  unfolding load_stash
  load_stash-Verified base id =
      get-Triple
        (λ m i. weaken-Triple Any _ (λ s e. tt) (λ a s v. v) (load_from-Verified base id _))

-- The state of the device, as a statement.
abbrev pub On : Text → Machine → Type 0
On device m = m.device ≡ device

-- What is kept together with the device and `canwrite`, keeps the device.
pub On-Triple :
    {A : Type 0} {f : M A} (device : Text)
    → ((w : Bool) → Keeps (Same w device) f)
    → Triple (On device) f (λ _. On device)
On-Triple device h = exact-Triple (λ m d.
    weaken-Triple (Same m.params.canwrite device) (λ _. Same m.params.canwrite device)
      (λ s e. (ap (λ (t : Machine). t.params.canwrite) e, ap (λ (t : Machine). t.device) e ∙ d))
      (λ a s x. x.1) (keeps-Triple (h m.params.canwrite)))

module _ (env : Env) (limits : WithinLimit env.parse_uint) where
  parse_or_exit-WellFormed : (t : Text) → Triple Any (parse_or_exit env t) (λ rs _. WellFormed rs)
  unfolding parse_or_exit
  parse_or_exit-WellFormed t =
      parsed _ (λ rs e. parse_range-WellFormed env.parse_uint limits _ t rs e)
    where
      parsed :
          (r : Option RangeSet)
          → ((rs : RangeSet) → r ≡ some rs → WellFormed rs)
          → Triple Any (range_or_exit r) (λ rs _. WellFormed rs)
      parsed none h = exited-Triple
      parsed (some rs) h = pure-Triple rs (λ m i. h rs refl)

  abbrev pub Sound : Loaded → Machine → Type 0
  Sound loaded m = WellFormed loaded.tgt × (loaded.completed ≡ false)

  pub load_src_tgt_version2-Sound :
      (stashbase : Text) → Triple Any (load_src_tgt_version2 env stashbase) Sound
  unfolding load_src_tgt_version2
  load_src_tgt_version2-Sound stashbase = then-Triple Any any-Triple (
      bind-Triple (λ _. Any) any-Triple
        (λ tgt_range.
          bind-Triple (λ tgt _. WellFormed tgt) (parse_or_exit-WellFormed tgt_range)
            (λ tgt. given-Triple (λ m w.
              bind-Triple (λ _. Any) any-Triple
                (λ token.
                  bind-Triple (λ _. Any) any-Triple
                    (λ src_blocks. then-Triple Any any-Triple (
                      bind-Triple (λ _. Any) any-Triple
                        (λ src_range.
                          bind-Triple (λ _. Any) any-Triple
                            (λ overlap. pure-Triple _ (λ s x. (w, refl)))))))))))
