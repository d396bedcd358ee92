-- ===== src/Uncrypt/Mapped.antt =====
-- uncrypt/uncrypt.cpp: the text of a map that `produce_block_map` publishes.
use recovery.Base.{
  ℕ, ◌+◌, ◌/◌, ◌==◌, ◌≡◌, sym, ◌∙◌, Bool, not, ◌&&◌, ◌++◌, List, [], ◌∷◌, length, Text, codes, some,
  arith, append_assoc, append-nil,
}
use mathlib.Core.Path.{subst}
use recovery.RotateLogs.Defs.{to_string}
use recovery.Uncrypt.Defs.{
  System, Result, ok, error, fault, Window, write_range_lines, map_header, write_map, publish,
  map_file, map_stat, produce_block_map,
}
use recovery.Uncrypt.Window.{Post, Post-and_then, Post-weaken, if-post, unequal}
use recovery.Uncrypt.Collected.{Complete, collect-Complete}

-- A line for each range.
unfoldable pub range_lines : List ℕ → Text
range_lines [] = []
range_lines (start ∷ []) = []
range_lines (start ∷ end ∷ ranges) =
    to_string start ++ (codes " " ++ (to_string end ++ codes "\n")) ++ range_lines ranges

-- The whole text, for a package of this size in these blocks.
unfoldable pub map_text : Text → ℕ → ℕ → List ℕ → Text
map_text blk_dev size blksize ranges =
    map_header blk_dev size blksize
    ++ (to_string (length ranges / 2) ++ codes "\n")
    ++ range_lines ranges

-- What is published is complete, and is written in full.
abbrev pub Published : System → Text → ℕ → ℕ → Bool → Window × Text → Type 0
Published system blk_dev size blksize encrypted r =
    Complete system size blksize encrypted r.0 × (r.1 ≡ map_text blk_dev size blksize r.0.ranges)

write_range_lines-lines :
    (system : System) (n : ℕ) (ranges : List ℕ) (s : Text)
    → Post (λ t. t ≡ s ++ range_lines ranges) (write_range_lines system n ranges s)
unfolding write_range_lines range_lines
write_range_lines-lines system n [] s = sym (append-nil s)
write_range_lines-lines system n (start ∷ []) s = tt
write_range_lines-lines system n (start ∷ end ∷ ranges) s =
    if-post (λ t. t ≡ s ++ range_lines (start ∷ end ∷ ranges)) (system.writes_map n) _ _
      (λ c.
        Post-weaken (λ t. t ≡ (s ++ line) ++ range_lines ranges) _ _
          (λ t e. e ∙ append_assoc s line (range_lines ranges))
          (write_range_lines-lines system (n + 1) ranges (s ++ line)))
      (λ c. tt)
  where
    line : Text
    line = to_string start ++ (codes " " ++ (to_string end ++ codes "\n"))

module _ (system : System) (blk_dev : Text) (encrypted : Bool) (size blksize : ℕ) where
  abbrev Good : Window × Text → Type 0
  Good = Published system blk_dev size blksize encrypted

  write_map-Good :
      (w : Window)
      → Complete system size blksize encrypted w
      → Post Good (write_map system (map_header blk_dev size blksize) w)
  unfolding write_map map_text
  write_map-Good w h =
      if-post Good (system.writes_map 1) _ _
        (λ c.
          Post-and_then (λ t. t ≡ front ++ range_lines w.ranges) Good _ _
            (write_range_lines-lines system 2 w.ranges front) (λ t e. (h, e)))
        (λ c. tt)
    where
      front : Text
      front = map_header blk_dev size blksize ++ (to_string (length w.ranges / 2) ++ codes "\n")

  publish-Good : (r : Window × Text) → Good r → Post Good (publish system encrypted r)
  unfolding publish
  publish-Good r h = Post-and_then (λ _. Unit {0}) Good _ _ (any _) (λ u x. h)
    where
      any : (s : Result (Unit {0})) → Post (λ _. Unit {0}) s
      any (ok a) = tt
      any (error code) = tt
      any fault = tt

  map_file-Good : Post Good (map_file system blk_dev encrypted size blksize)
  unfolding map_file
  map_file-Good =
      if-post Good (blksize == 0) fault _ (λ c. tt)
        (λ z.
          if-post Good (not (system.writes_map 0)) _ _ (λ c. tt)
            (λ c.
              if-post Good (not system.opens_file) _ _ (λ d. tt)
                (λ d.
                  if-post Good (encrypted && not system.opens_device) _ _ (λ e. tt)
                    (λ e.
                      Post-and_then Good Good (publish system encrypted) _
                        (Post-and_then (Complete system size blksize encrypted) Good _ _
                          (collect-Complete system size blksize encrypted
                            (omega (arith, unequal _ _ z)))
                          write_map-Good)
                        publish-Good))))

  produce_block_map-Good :
      system.stat ≡ some (size, blksize) → Post Good (produce_block_map system blk_dev encrypted)
  unfolding produce_block_map
  produce_block_map-Good s =
      if-post Good (not system.removes_map) _ _ (λ c. tt)
        (λ c.
          if-post Good (not system.opens_map) _ _ (λ d. tt)
            (λ d.
              if-post Good (not system.writes_status) _ _ (λ e. tt)
                (λ e.
                  subst (λ o. Post Good (map_stat system blk_dev encrypted o)) (sym s)
                    map_file-Good)))

  -- A call of `produce_block_map` that succeeds, for a package of any size, encrypted or not: the ranges
  -- of the map are pairs of a start and an end behind it, they name the blocks of the package as the
  -- system maps them, each once and in order, just as many as its bytes need, and the map's text
  -- is the device, the size, the size of a block, the number of ranges and a line for each.
  pub produce_block_map-Published :
      (w : Window) (text : Text)
      → system.stat ≡ some (size, blksize)
      → produce_block_map system blk_dev encrypted ≡ ok (w, text)
      → Published system blk_dev size blksize encrypted (w, text)
  produce_block_map-Published w text s e = subst (Post Good) e (produce_block_map-Good s)
