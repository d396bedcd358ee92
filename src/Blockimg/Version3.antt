-- ===== src/Blockimg/Version3.antt =====
-- updater/blockimg.cpp: `LoadSrcTgtVersion3`, with the hashes from the tokens.
use recovery.Base.{
  ℕ, ◌+◌, ◌≡◌, refl, sym, ap, ◌∙◌, Bool, true, false, Text, get_elem?, Option, none, some,
  if◌then◌else◌,
}
use recovery.Blockimg.Parsed.{WithinLimit}
use recovery.Blockimg.Machine.{Env, Machine, ok, set_params}
use recovery.Blockimg.Saving.{token_or_fault, next_token}
use recovery.Blockimg.Load.{Loaded, need_tokens, load_src_tgt_hashed, load_src_tgt_version3}
use recovery.Blockimg.Triple.{
  Triple, bind-Triple, then-Triple, get-Triple, pure-Triple, failed-Triple, fault-Triple, if-Triple,
  given-Triple, weaken-Triple, done-Triple, run-Triple,
}
use recovery.Blockimg.Verified.{On}
use recovery.Blockimg.Sources.{Ready, load_src_tgt_hashed-Ready}

-- The hashes among the tokens: one for both, or the target's behind the source's.
abbrev pub HashTokens : Machine → Bool → Text → Text → Type 0
HashTokens m onehash srchash tgthash =
    (get_elem? m.params.tokens m.params.cpos ≡ some srchash)
    × (get_elem? m.params.tokens (if onehash then m.params.cpos else m.params.cpos + 1)
        ≡ some tgthash)

-- The state is that of before but for the place among the tokens.
abbrev At : Machine → ℕ → Machine → Type 0
At m cpos s = s ≡ record m { params = record m.params { cpos = cpos } }

taken :
    (o : Option Text) (m : Machine)
    → Triple (λ s. s ≡ m) (token_or_fault o) (λ t s. (o ≡ some t) × (s ≡ m))
taken none m = fault-Triple
taken (some t) m = pure-Triple t (λ s e. (refl, e))

next_token-At :
    (m : Machine) (cpos : ℕ)
    → Triple
        (At m cpos)
        next_token
        (λ t s. (get_elem? m.params.tokens cpos ≡ some t) × At m (cpos + 1) s)
unfolding next_token set_params
next_token-At m cpos = get-Triple (λ s e.
    then-Triple (At m (cpos + 1))
      (record {
        holds = λ u x.
            ap (λ (t : Machine). record t { params = record t.params { cpos = t.params.cpos + 1 } })
              (x ∙ e);
      })
      (weaken-Triple (At m (cpos + 1))
        (λ t u. (get_elem? s.params.tokens s.params.cpos ≡ some t) × At m (cpos + 1) u) (λ u x. x)
        (λ t u x.
          (sym (ap (λ (v : Machine). get_elem? v.params.tokens v.params.cpos) e) ∙ x.0, x.1))
        (taken (get_elem? s.params.tokens s.params.cpos) _)))

need_tokens-At :
    (m : Machine) (more cpos : ℕ) → Triple (At m cpos) (need_tokens more) (λ _. At m cpos)
unfolding need_tokens
need_tokens-At m more cpos =
    get-Triple (λ s e. if-Triple _ (λ b. done-Triple (λ u x. x ∙ e)) (λ b. failed-Triple))

module _ (env : Env) (limits : WithinLimit env.parse_uint) where
  hashed :
      (m : Machine) (cpos : ℕ) (srchash tgthash : Text)
      → Triple
          (At m cpos)
          (load_src_tgt_hashed env srchash tgthash)
          (Ready env m.device srchash tgthash)
  hashed m cpos srchash tgthash =
      weaken-Triple (On m.device) (Ready env m.device srchash tgthash)
        (λ s e. ap (λ (t : Machine). t.device) e) (λ l s r. r)
        (load_src_tgt_hashed-Ready env limits m.device srchash tgthash)

  abbrev pub LoadedBy : Machine → Bool → Loaded → Machine → Type 0
  LoadedBy m onehash loaded s =
      (srchash tgthash : Text) × HashTokens m onehash srchash tgthash
      × Ready env m.device srchash tgthash loaded s

  pub version3-LoadedBy :
      (m : Machine) (onehash : Bool)
      → Triple (λ s. s ≡ m) (load_src_tgt_version3 env onehash) (LoadedBy m onehash)
  unfolding load_src_tgt_version3
  version3-LoadedBy m true = then-Triple (At m m.params.cpos) (need_tokens-At m 0 m.params.cpos) (
      bind-Triple
        (λ t s. (get_elem? m.params.tokens m.params.cpos ≡ some t) × At m (m.params.cpos + 1) s)
        (next_token-At m m.params.cpos)
        (λ srchash. given-Triple (λ s x.
          weaken-Triple (At m (m.params.cpos + 1)) (Ready env m.device srchash srchash) (λ u y. y.1)
            (λ l u r. (srchash, srchash, (x.0, x.0), r))
            (hashed m (m.params.cpos + 1) srchash srchash))))
  version3-LoadedBy m false = then-Triple (At m m.params.cpos) (need_tokens-At m 0 m.params.cpos) (
      bind-Triple
        (λ t s. (get_elem? m.params.tokens m.params.cpos ≡ some t) × At m (m.params.cpos + 1) s)
        (next_token-At m m.params.cpos)
        (λ srchash. given-Triple (λ s x.
          then-Triple (At m (m.params.cpos + 1))
            (weaken-Triple (At m (m.params.cpos + 1)) (λ _. At m (m.params.cpos + 1)) (λ u y. y.1)
              (λ a u y. y) (need_tokens-At m 0 (m.params.cpos + 1)))
            (bind-Triple
              (λ t u.
                (get_elem? m.params.tokens (m.params.cpos + 1) ≡ some t)
                × At m (m.params.cpos + 1 + 1) u)
              (next_token-At m (m.params.cpos + 1))
              (λ tgthash. given-Triple (λ u y.
                weaken-Triple (At m (m.params.cpos + 1 + 1)) (Ready env m.device srchash tgthash)
                  (λ v z. z.1) (λ l v r. (srchash, tgthash, (x.0, y.0), r))
                  (hashed m (m.params.cpos + 1 + 1) srchash tgthash)))))))

  -- A load at version 3 that succeeds, on whatever transfer list, stash and device: with one hash for both or
  -- two, read from the tokens, the device is as before, the target is a well-formed range set, and if
  -- the command counts as completed, the target's blocks on the device have the target's hash; if not, the
  -- front of the buffer has the source's hash, over as many blocks as the command says or, where
  -- source and target overlap, as a stash of an interrupted run has. `ParseUint` keeps to its limit.
  pub load_src_tgt_version3-LoadedBy :
      (onehash : Bool) (m m' : Machine) (loaded : Loaded)
      → load_src_tgt_version3 env onehash m ≡ (ok loaded, m')
      → LoadedBy m onehash loaded m'
  load_src_tgt_version3-LoadedBy onehash m m' loaded e =
      run-Triple (load_src_tgt_version3 env onehash) (LoadedBy m onehash) m m' loaded
        (version3-LoadedBy m onehash) refl e
