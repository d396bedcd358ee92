-- ===== src/Blockimg/DryRun/Stashes.antt =====
-- updater/blockimg.cpp: stashing and loading leave the device alone.
use recovery.Base.{ℕ, Bool, List, [], ◌∷◌, Text, Option, none, some}
use recovery.Base.Int.{ℤ, pos, negsuc}
use recovery.Blockimg.Ranges.{RangeSet}
use recovery.Blockimg.Machine.{Env}
use recovery.Blockimg.Stash.{Stat, found, missing, error}
use recovery.Blockimg.Stashing.{
  load_source, load_bytes, load_found, load_file, load_from, load_stash,
}
use recovery.Blockimg.Saving.{stash_size, make_stash, check_more, reuse_stash, create_stash}
use recovery.Blockimg.Keeps.{
  Keeps, bind-Keeps, then-Keeps, get-Keeps, pure-Keeps, stop-Keeps, done-Keeps, if-Keeps,
  modify-Keeps, set_params-Keeps, require-Keeps,
}
use recovery.Blockimg.DryRun.{Same, Same-Quiet, allocate-Same, read_blocks-Same}
use recovery.Blockimg.Quiet.{
  abort_with-Quiet, cache_size_check-Quiet, delete_file-Quiet, delete_partial-Quiet,
  enumerate_stash-Quiet, read_all-Quiet, stash_names-Quiet, stat_file-Quiet, system_call-Quiet,
  verify_blocks-Quiet,
}

module _ {w : Bool} {bytes : Text} (env : Env) where
  load_source-Same : (id : Text) (src : RangeSet) → Keeps (Same w bytes) (load_source env id src)
  unfolding load_source
  load_source-Same id src = then-Keeps (allocate-Same env _) (
      then-Keeps (read_blocks-Same env src) (
        bind-Keeps (verify_blocks-Quiet Same-Quiet env _ _)
          (λ right. if-Keeps _ done-Keeps (stop-Keeps _))))

  load_bytes-Same :
      (id name : Text) (verify : Bool) (content : Text)
      → Keeps (Same w bytes) (load_bytes env id name verify content)
  unfolding load_bytes
  load_bytes-Same id name verify content = if-Keeps _ (stop-Keeps _) (
      then-Keeps (require-Keeps (system_call-Quiet Same-Quiet env) (stop-Keeps _)) (
        then-Keeps (allocate-Same env _) (
          bind-Keeps (read_all-Quiet Same-Quiet env _ _) (λ b.
            then-Keeps (modify-Keeps _ (λ m i. i)) (
              bind-Keeps (verify_blocks-Quiet Same-Quiet env _ _) (λ right.
                if-Keeps _ (then-Keeps (delete_file-Quiet Same-Quiet env _) (stop-Keeps _))
                  done-Keeps))))))

  load_found-Same :
      (id name : Text) (verify : Bool) (stat : Stat)
      → Keeps (Same w bytes) (load_found env id name verify stat)
  load_found-Same id name verify (found content) = load_bytes-Same id name verify content
  load_found-Same id name verify missing = stop-Keeps _
  load_found-Same id name verify error = stop-Keeps _

  load_file-Same :
      (base id : Text) (verify : Bool) → Keeps (Same w bytes) (load_file env base id verify)
  unfolding load_file
  load_file-Same base id verify =
      if-Keeps _ (stop-Keeps _)
        (bind-Keeps (stat_file-Quiet Same-Quiet env _) (load_found-Same id _ verify))

  load_from-Same :
      (base id : Text) (verify : Bool) (saved : Option RangeSet)
      → Keeps (Same w bytes) (load_from env base id verify saved)
  load_from-Same base id verify none = load_file-Same base id verify
  load_from-Same base id verify (some src) = load_source-Same id src

  pub load_stash-Same :
      (base id : Text) (verify : Bool) → Keeps (Same w bytes) (load_stash env base id verify)
  unfolding load_stash
  load_stash-Same base id verify = get-Keeps (λ m i. load_from-Same base id verify _)

  stash_size-Same :
      (dirname : Text) (names : List Text) (size : ℤ)
      → Keeps (Same w bytes) (stash_size env dirname names size)
  unfolding stash_size
  stash_size-Same dirname [] size = pure-Keeps _
  stash_size-Same dirname (name ∷ names) size =
      bind-Keeps (stat_file-Quiet Same-Quiet env _) (λ stat. stash_size-Same dirname names _)

  make_stash-Same :
      (dirname : Text) (blocks : ℕ) → Keeps (Same w bytes) (make_stash env dirname blocks)
  unfolding make_stash
  make_stash-Same dirname blocks = get-Keeps (λ m i.
      then-Keeps
        (require-Keeps (system_call-Quiet Same-Quiet env) (abort_with-Quiet Same-Quiet env _ _))
        (then-Keeps (modify-Keeps _ (λ s j. j)) (
          bind-Keeps (cache_size_check-Quiet Same-Quiet env _)
            (λ fits. if-Keeps _ (pure-Keeps _) (abort_with-Quiet Same-Quiet env _ _)))))

  check_more-Same : (more : ℤ) → Keeps (Same w bytes) (check_more env more)
  unfolding check_more
  check_more-Same (negsuc n) = pure-Keeps _
  check_more-Same (pos n) = if-Keeps _ (pure-Keeps _) (
      bind-Keeps (cache_size_check-Quiet Same-Quiet env _)
        (λ fits. if-Keeps _ (pure-Keeps _) (abort_with-Quiet Same-Quiet env _ _)))

  reuse_stash-Same :
      (dirname : Text) (blocks : ℕ) → Keeps (Same w bytes) (reuse_stash env dirname blocks)
  unfolding reuse_stash
  reuse_stash-Same dirname blocks =
      then-Keeps (enumerate_stash-Quiet Same-Quiet env _ _ (delete_partial-Quiet Same-Quiet env)) (
        bind-Keeps (stash_names-Quiet Same-Quiet env _)
          (λ names. bind-Keeps (stash_size-Same _ _ _) (λ used. check_more-Same _)))

  pub create_stash-Same :
      (blocks : ℕ) (blockdev : Text) → Keeps (Same w bytes) (create_stash env blocks blockdev)
  unfolding create_stash
  create_stash-Same blocks blockdev = then-Keeps (set_params-Keeps _ (λ m i. i)) (
      get-Keeps (λ m i. bind-Keeps (system_call-Quiet Same-Quiet env) (λ fails.
        if-Keeps _ (abort_with-Quiet Same-Quiet env _ _)
          (if-Keeps _ (reuse_stash-Same _ _) (make_stash-Same _ _)))))
