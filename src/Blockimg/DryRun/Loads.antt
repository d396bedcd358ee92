-- ===== src/Blockimg/DryRun/Loads.antt =====
-- updater/blockimg.cpp: loads of source blocks leave the device alone.
use recovery.Base.{ℕ, Bool, List, [], ◌∷◌, Text, Option, none, some}
use recovery.Blockimg.Ranges.{RangeSet}
use recovery.Blockimg.Machine.{Env}
use recovery.Blockimg.Saving.{
  token_or_fault, next_token, range_or_exit, parse_or_exit, save_blocks, save_stash,
}
use recovery.Blockimg.Load.{
  Loaded, need_tokens, load_src_tgt_version1, move_packed, move_stashed, move_loaded, load_word,
  load_words, remaining_words, load_source_range, count_or_fail, load_src_tgt_version2,
  verify_target, stash_overlapping, load_interrupted, load_src_tgt_hashed, load_src_tgt_version3,
}
use recovery.Blockimg.Keeps.{
  Keeps, bind-Keeps, then-Keeps, get-Keeps, pure-Keeps, stop-Keeps, done-Keeps, if-Keeps,
  attempt-Keeps, with_buffer-Keeps, modify-Keeps, set_params-Keeps,
}
use recovery.Blockimg.DryRun.{Same, Same-Quiet, allocate-Same, read_blocks-Same}
use recovery.Blockimg.Quiet.{verify_blocks-Quiet, write_stash-Quiet, write_stash_checked-Quiet}
use recovery.Blockimg.DryRun.Stashes.{load_stash-Same}

module _ {w : Bool} {bytes : Text} (env : Env) where
  token_or_fault-Same : (t : Option Text) → Keeps (Same w bytes) (token_or_fault t)
  token_or_fault-Same none = stop-Keeps _
  token_or_fault-Same (some t) = pure-Keeps _

  pub next_token-Same : Keeps (Same w bytes) next_token
  unfolding next_token
  next_token-Same =
      get-Keeps (λ m i. then-Keeps (set_params-Keeps _ (λ s j. j)) (token_or_fault-Same _))

  range_or_exit-Same : (rs : Option RangeSet) → Keeps (Same w bytes) (range_or_exit rs)
  range_or_exit-Same none = stop-Keeps _
  range_or_exit-Same (some rs) = pure-Keeps _

  pub parse_or_exit-Same : (t : Text) → Keeps (Same w bytes) (parse_or_exit env t)
  unfolding parse_or_exit
  parse_or_exit-Same t = range_or_exit-Same _

  save_blocks-Same :
      (base id : Text) (usehash : Bool) (src : RangeSet)
      → Keeps (Same w bytes) (save_blocks env base id usehash src)
  unfolding save_blocks
  save_blocks-Same base id usehash src = then-Keeps (allocate-Same env _) (
      then-Keeps (read_blocks-Same env src) (
        bind-Keeps (if-Keeps _ (verify_blocks-Quiet Same-Quiet env _ _) (pure-Keeps _)) (λ right.
          get-Keeps (λ m i. if-Keeps _ done-Keeps (
            if-Keeps _ (modify-Keeps _ (λ s j. j)) (
              then-Keeps (set_params-Keeps _ (λ s j. j))
                (write_stash-Quiet Same-Quiet env _ _ _)))))))

  pub save_stash-Same :
      (base : Text) (usehash : Bool) → Keeps (Same w bytes) (save_stash env base usehash)
  unfolding save_stash
  save_stash-Same base usehash = get-Keeps (λ m i.
      then-Keeps (if-Keeps _ done-Keeps (stop-Keeps _)) (
        bind-Keeps next_token-Same (λ id.
          bind-Keeps (if-Keeps _ (attempt-Keeps (load_stash-Same env _ _ _)) (pure-Keeps _))
            (λ loaded. if-Keeps _ done-Keeps (
              bind-Keeps next_token-Same (λ range.
                bind-Keeps (parse_or_exit-Same _)
                  (λ src. save_blocks-Same base id usehash src)))))))

  pub need_tokens-Same : (more : ℕ) → Keeps (Same w bytes) (need_tokens more)
  unfolding need_tokens
  need_tokens-Same more = get-Keeps (λ m i. if-Keeps _ done-Keeps (stop-Keeps _))

  pub load_src_tgt_version1-Same : Keeps (Same w bytes) (load_src_tgt_version1 env)
  unfolding load_src_tgt_version1
  load_src_tgt_version1-Same = then-Keeps (need_tokens-Same _) (
      bind-Keeps next_token-Same (λ src_range. bind-Keeps (parse_or_exit-Same _) (λ src.
        bind-Keeps next_token-Same (λ tgt_range. bind-Keeps (parse_or_exit-Same _) (λ tgt.
          then-Keeps (allocate-Same env _)
            (then-Keeps (read_blocks-Same env src) (pure-Keeps _)))))))

  move_packed-Same : (locs : RangeSet) → Keeps (Same w bytes) (move_packed locs)
  unfolding move_packed
  move_packed-Same locs = get-Keeps (λ m i. if-Keeps _ (modify-Keeps _ (λ s j. j)) (stop-Keeps _))

  move_stashed-Same :
      (stash : Text) (locs : RangeSet) → Keeps (Same w bytes) (move_stashed stash locs)
  unfolding move_stashed
  move_stashed-Same stash locs =
      get-Keeps (λ m i. if-Keeps _ (modify-Keeps _ (λ s j. j)) (stop-Keeps _))

  move_loaded-Same :
      (range : Text) (stash : Option (Unit {0} × Text))
      → Keeps (Same w bytes) (move_loaded env range stash)
  move_loaded-Same range none = done-Keeps
  move_loaded-Same range (some (_, stash)) =
      bind-Keeps (parse_or_exit-Same range) (λ locs. move_stashed-Same stash locs)

  load_word-Same :
      (stashbase : Text) (tokens : List Text)
      → Keeps (Same w bytes) (load_word env stashbase tokens)
  load_word-Same stashbase (id ∷ range ∷ []) =
      bind-Keeps (attempt-Keeps (with_buffer-Keeps (λ m b i. i) _ (load_stash-Same env _ _ _)))
        (move_loaded-Same range)
  load_word-Same stashbase (id ∷ range ∷ t ∷ ts) = stop-Keeps _
  load_word-Same stashbase (id ∷ []) = stop-Keeps _
  load_word-Same stashbase [] = stop-Keeps _

  load_words-Same :
      (stashbase : Text) (words : List Text) → Keeps (Same w bytes) (load_words env stashbase words)
  unfolding load_words
  load_words-Same stashbase [] = done-Keeps
  load_words-Same stashbase (word ∷ words) =
      then-Keeps (set_params-Keeps _ (λ m i. i))
        (then-Keeps (load_word-Same stashbase _) (load_words-Same stashbase words))

  remaining_words-Same : (stashbase : Text) → Keeps (Same w bytes) (remaining_words env stashbase)
  unfolding remaining_words
  remaining_words-Same stashbase = get-Keeps (λ m i. load_words-Same stashbase _)

  load_source_range-Same :
      (stashbase : Text) (tgt : RangeSet) (range : Text)
      → Keeps (Same w bytes) (load_source_range env stashbase tgt range)
  unfolding load_source_range
  load_source_range-Same stashbase tgt range = bind-Keeps (parse_or_exit-Same _) (λ src.
      then-Keeps (read_blocks-Same env src) (
        get-Keeps (λ m i.
          if-Keeps _
            (bind-Keeps next_token-Same (λ locations. bind-Keeps (parse_or_exit-Same _) (λ locs.
              then-Keeps (move_packed-Same locs)
                (then-Keeps (remaining_words-Same stashbase) (pure-Keeps _)))))
            (pure-Keeps _))))

  pub count_or_fail-Same : (n : Option ℕ) → Keeps (Same w bytes) (count_or_fail n)
  count_or_fail-Same none = stop-Keeps _
  count_or_fail-Same (some n) = pure-Keeps _

  pub load_src_tgt_version2-Same :
      (stashbase : Text) → Keeps (Same w bytes) (load_src_tgt_version2 env stashbase)
  unfolding load_src_tgt_version2
  load_src_tgt_version2-Same stashbase = then-Keeps (need_tokens-Same _) (
      bind-Keeps next_token-Same (λ tgt_range. bind-Keeps (parse_or_exit-Same _) (λ tgt.
        bind-Keeps next_token-Same (λ token. bind-Keeps (count_or_fail-Same _) (λ src_blocks.
          then-Keeps (allocate-Same env _) (
            bind-Keeps next_token-Same (λ src_range.
              bind-Keeps
                (if-Keeps _ (then-Keeps (remaining_words-Same stashbase) (pure-Keeps _))
                  (load_source_range-Same stashbase tgt src_range))
                (λ overlap. pure-Keeps _))))))))

  verify_target-Same :
      (tgthash : Text) (tgt : RangeSet) → Keeps (Same w bytes) (verify_target env tgthash tgt)
  unfolding verify_target
  verify_target-Same tgthash tgt =
      bind-Keeps
        (with_buffer-Keeps (λ m b i. i) _
          (then-Keeps (then-Keeps (allocate-Same env _) (read_blocks-Same env tgt))
            (verify_blocks-Quiet Same-Quiet env _ _)))
        (λ r. pure-Keeps _)

  stash_overlapping-Same :
      (srchash : Text) (loaded : Loaded)
      → Keeps (Same w bytes) (stash_overlapping env srchash loaded)
  unfolding stash_overlapping
  stash_overlapping-Same srchash loaded = get-Keeps (λ m i.
      if-Keeps _
        (bind-Keeps (write_stash_checked-Quiet Same-Quiet env _ _ _)
          (λ exists. set_params-Keeps _ (λ s j. j)))
        done-Keeps)

  load_interrupted-Same :
      (srchash : Text) (loaded : Loaded)
      → Keeps (Same w bytes) (load_interrupted env srchash loaded)
  unfolding load_interrupted
  load_interrupted-Same srchash loaded = get-Keeps (λ m i.
      bind-Keeps (if-Keeps _ (attempt-Keeps (load_stash-Same env _ _ _)) (pure-Keeps _))
        (λ restored.
          if-Keeps _ (pure-Keeps _) (then-Keeps (set_params-Keeps _ (λ s j. j)) (stop-Keeps _))))

  load_src_tgt_hashed-Same :
      (srchash tgthash : Text) → Keeps (Same w bytes) (load_src_tgt_hashed env srchash tgthash)
  unfolding load_src_tgt_hashed
  load_src_tgt_hashed-Same srchash tgthash = get-Keeps (λ m i.
      bind-Keeps (load_src_tgt_version2-Same _) (λ loaded.
        bind-Keeps (verify_target-Same tgthash _) (λ written. if-Keeps _ (pure-Keeps _) (
          bind-Keeps (verify_blocks-Quiet Same-Quiet env _ _) (λ right.
            if-Keeps _ (then-Keeps (stash_overlapping-Same srchash loaded) (pure-Keeps _))
              (load_interrupted-Same srchash loaded))))))

  pub load_src_tgt_version3-Same :
      (onehash : Bool) → Keeps (Same w bytes) (load_src_tgt_version3 env onehash)
  unfolding load_src_tgt_version3
  load_src_tgt_version3-Same onehash = then-Keeps (need_tokens-Same _) (
      bind-Keeps next_token-Same (λ srchash. if-Keeps _ (load_src_tgt_hashed-Same srchash srchash) (
        then-Keeps (need_tokens-Same _)
          (bind-Keeps next_token-Same (λ tgthash. load_src_tgt_hashed-Same srchash tgthash)))))
