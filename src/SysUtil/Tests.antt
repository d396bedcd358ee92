-- ===== src/SysUtil/Tests.antt =====
-- otautil/SysUtil.cpp: runs on small inputs.
use recovery.Base.{
  ℕ, ◌+◌, ◌-◌, ◌*◌, ◌==◌, leb, ◌&&◌, ◌≡◌, refl, ap, ◌∙◌, false, ◌++◌, append_assoc, append-nil,
  true, List, [], ◌∷◌, Text, codes, Option, some, if◌then◌else◌, arith,
}
use recovery.RotateLogs.Defs.{digits, to_string}
use recovery.Uncrypt.Tests.{example_system, example_window, example_text, encrypted_package}
use recovery.SysUtil.Defs.{
  System, MemMapping, with_some, map_ranges, map_device, map_checked, map_lines, sys_map_block_file,
  sys_map_fd, sys_map_file,
}
use recovery.SysUtil.Restored.{pieces, no_line, line, Reads}
use recovery.SysUtil.Lines.{
  Graphic, last_code, code, Line, word, two_words, Lines, last_line, more_lines, joined,
  range_texts,
}
use recovery.SysUtil.Remapped.{sys_map_block_file-produce_block_map}

-- The number at the front of a text, and what is behind its separator.
number_from : ℕ → Text → ℕ × Text
number_from n [] = (n, [])
number_from n (c ∷ t) =
    let rest = number_from (n * 10 + (c - 48)) t in if leb 48 c && leb c 57 then rest else (n, t)

two_from : Text → Option (ℕ × ℕ)
two_from t = some ((number_from 0 t).0, (number_from 0 (number_from 0 t).1).0)

one_from : Text → Option ℕ
one_from t = some (number_from 0 t).0

-- The lines of a text that ends in a line end.
abbrev extend : ℕ → List Text → List Text
extend c [] = if c == 10 then [] ∷ [] else (c ∷ []) ∷ []
extend c (part ∷ parts) = if c == 10 then [] ∷ part ∷ parts else (c ∷ part) ∷ parts

lines_of : Text → List Text
lines_of [] = []
lines_of (c ∷ t) = extend c (lines_of t)

-- A word at the front of a line.
lines_of-Graphic :
    (w t p : Text) (ps : List Text)
    → Graphic w
    → lines_of t ≡ p ∷ ps
    → lines_of (w ++ t) ≡ (w ++ p) ∷ ps
unfolding lines_of
lines_of-Graphic _ t p ps (last_code {c} h) e =
    rw e (rw (let n : (c == 10) ≡ false = ground arith in n) refl)
lines_of-Graphic _ t p ps (code {c} {t = w} h g) e =
    rw (lines_of-Graphic w t p ps g e) (rw (let n : (c == 10) ≡ false = ground arith in n) refl)

ended : (t : Text) → lines_of (10 ∷ t) ≡ [] ∷ lines_of t
unfolding lines_of
ended t = at (lines_of t)
  where
    at : (ts : List Text) → extend 10 ts ≡ [] ∷ ts
    at [] = refl
    at (part ∷ parts) = refl

lines_of-Line : (w t : Text) → Line w → lines_of (w ++ (codes "\n" ++ t)) ≡ w ∷ lines_of t
lines_of-Line w t (word g) =
    lines_of-Graphic w (codes "\n" ++ t) [] (lines_of t) g (ended t)
    ∙ ap (λ (s : Text). s ∷ lines_of t) (append-nil w)
lines_of-Line _ t (two_words {s = u} {t = v} g h) =
    ap lines_of (append_assoc u (codes " " ++ v) (codes "\n" ++ t))
    ∙ lines_of-Graphic u (codes " " ++ v ++ (codes "\n" ++ t)) (codes " " ++ v) (lines_of t) g (
        unfold lines_of in
        ap (extend 32) (
          lines_of-Graphic v (codes "\n" ++ t) [] (lines_of t) h (ended t)
          ∙ ap (λ (s : Text). s ∷ lines_of t) (append-nil v)))

lines_of-joined : (ts : List Text) → Lines ts → lines_of (joined ts) ≡ ts
unfolding joined lines_of
lines_of-joined _ (last_line {t} h) = lines_of-Line t [] h
lines_of-joined _ (more_lines {t} {ts} h k) =
    lines_of-Line t (joined ts) h ∙ ap (λ (s : List Text). t ∷ s) (lines_of-joined ts k)

abbrev mapping_system : System
mapping_system = record {
  read_file = λ name. some example_text;
  lines = lines_of;
  scan_one = one_from;
  scan_two = two_from;
  reserves = λ n. true;
  opens = λ name. true;
  file_size = λ name. some 26;
  maps = λ offset n. true;
}

-- Three blocks from the tenth on, then four from block 23 on.
abbrev example_mapping : MemMapping
example_mapping = record {
  source = codes "disk";
  length = 26;
  ranges =
      record { addr = 0; length = 12; offset = 40 }
      ∷ record { addr = 12; length = 16; offset = 92 }
      ∷ [];
}

maps_blocks : sys_map_file mapping_system (codes "@block.map") ≡ some example_mapping
unfolding with_some map_ranges map_device map_checked map_lines sys_map_block_file sys_map_fd
    sys_map_file number_from two_from one_from lines_of
maps_blocks = refl

maps_whole :
    sys_map_file mapping_system (codes "disk")
    ≡ some (record {
      source = codes "disk";
      length = 26;
      ranges = record { addr = 0; length = 26; offset = 0 } ∷ [];
    })
unfolding with_some map_ranges map_device map_checked map_lines sys_map_block_file sys_map_fd
    sys_map_file
maps_whole = refl

example-Reads :
    Reads mapping_system (codes "block.map") example_text (codes "disk") 26 4 example_window.ranges
unfolding range_texts number_from two_from one_from lines_of digits to_string
example-Reads = record {
  content = refl;
  splits = lines_of-joined;
  device_name =
      code (omega arith) (code (omega arith) (code (omega arith) (last_code (omega arith))));
  sizes = refl;
  count = refl;
  scanned = line refl (line refl no_line);
  reserved = λ n. refl;
  opened = refl;
  mapped = λ offset n. refl;
}

sys_map_block_file-produce_block_map_example :
    sys_map_block_file mapping_system (codes "block.map")
    ≡ some
        (record { source = codes "disk"; length = 26; ranges = pieces 4 0 example_window.ranges })
sys_map_block_file-produce_block_map_example =
    sys_map_block_file-produce_block_map example_system mapping_system (codes "block.map")
      (codes "disk") true 26 4 example_window example_text refl encrypted_package (omega arith)
      (omega arith) example-Reads
