-- ===== src/Uncrypt/Tests.antt =====
-- uncrypt/uncrypt.cpp: runs on small inputs.
use recovery.Base.{◌+◌, ◌≡◌, refl, ltb, true, [], ◌∷◌, Text, codes, some, if◌then◌else◌}
use recovery.RotateLogs.Defs.{digits, to_string}
use recovery.Uncrypt.Ranges.{add_block_to_ranges}
use recovery.Uncrypt.Defs.{
  System, ok, and_then, Window, buffer_at, read_into, write_head, make_room, read_tail, fill_loop,
  drain_loop, start_window, collect, write_range_lines, map_header, write_map, publish, map_file,
  produce_block_map,
}
use recovery.Uncrypt.Mapped.{Published, produce_block_map-Published}

-- A block that follows the last range, and one that does not.
longer : add_block_to_ranges (3 ∷ 5 ∷ []) 5 ≡ 3 ∷ 6 ∷ []
unfolding add_block_to_ranges
longer = refl

apart : add_block_to_ranges (3 ∷ 5 ∷ []) 6 ≡ 3 ∷ 5 ∷ 6 ∷ 7 ∷ []
unfolding add_block_to_ranges
apart = refl

-- A package of 26 bytes in seven blocks of four, which stand in two places of the device.
abbrev pub example_system : System
example_system = record {
  removes_map = true;
  opens_map = true;
  writes_status = true;
  stat = some (26, 4);
  content = codes "abcdefghijklmnopqrstuvwxyz";
  opens_file = true;
  opens_device = true;
  reads = λ pos. true;
  fibmap = λ block. some (if ltb block 3 then 10 + block else 20 + block);
  writes_block = λ place. true;
  writes_map = λ n. true;
  syncs_map = true;
  closes_map = true;
  syncs_device = true;
  closes_device = true;
  renames_map = true;
  opens_dir = true;
  syncs_dir = true;
  closes_dir = true;
}

-- The last block is filled up with what the buffer had before.
abbrev pub example_window : Window
example_window = record {
  ranges = 10 ∷ 13 ∷ 23 ∷ 27 ∷ [];
  buffers = codes "uvwx" ∷ codes "yzgh" ∷ codes "ijkl" ∷ codes "mnop" ∷ codes "qrst" ∷ [];
  head_block = 7;
  head = 2;
  tail = 2;
  pos = 26;
  writes =
      (40, codes "abcd")
      ∷ (44, codes "efgh")
      ∷ (48, codes "ijkl")
      ∷ (92, codes "mnop")
      ∷ (96, codes "qrst")
      ∷ (100, codes "uvwx")
      ∷ (104, codes "yzgh")
      ∷ [];
}

abbrev pub example_text : Text
example_text = codes "disk\n26 4\n2\n10 13\n23 27\n"

pub encrypted_package :
    produce_block_map example_system (codes "disk") true ≡ ok (example_window, example_text)
unfolding add_block_to_ranges and_then buffer_at read_into write_head make_room read_tail fill_loop
    drain_loop start_window collect write_range_lines map_header write_map publish map_file
    produce_block_map digits to_string
encrypted_package = refl

produce_block_map-Published_example :
    Published example_system (codes "disk") 26 4 true (example_window, example_text)
produce_block_map-Published_example =
    produce_block_map-Published example_system (codes "disk") true 26 4 example_window example_text
      refl encrypted_package
