-- ===== src/Uncrypt/Defs.antt =====
-- uncrypt/uncrypt.cpp: `produce_block_map`. What the system's calls answer is in the record System; the
-- progress that is sent to the socket meanwhile is left out, as its result is not looked at.
use recovery.Base.{
  ℕ, suc, zero, ◌+◌, ◌-◌, ◌*◌, ◌/◌, ◌%◌, ◌==◌, ltb, Bool, not, ◌&&◌, ◌++◌, List, [], ◌∷◌, length,
  take, drop, replicate, Text, codes, Option, none, some, if◌then◌else◌,
}
use recovery.ErrorCode.{
  UncryptErrorCode, uncrypt_file_remove_error, uncrypt_file_open_error, uncrypt_socket_write_error,
  uncrypt_file_stat_error, uncrypt_block_open_error, uncrypt_ioctl_error, uncrypt_read_error,
  uncrypt_write_error, uncrypt_file_sync_error, uncrypt_file_close_error, uncrypt_file_rename_error,
}
use recovery.RotateLogs.Defs.{to_string}
use recovery.Uncrypt.Ranges.{add_block_to_ranges}

-- `#define WINDOW_SIZE 5`
abbrev pub window_size : ℕ
window_size = 5

-- Whether each call succeeds. `stat` gives the size and the block size of the package, `content` its
-- bytes; `fibmap` is the ioctl that gives a block of the file on the device. Reads are told apart by
-- their place in the file, writes to the device by their place there, those to the map by their number.
pub record System : Type 0 where
  pub removes_map : Bool
  pub opens_map : Bool
  pub writes_status : Bool
  pub stat : Option (ℕ × ℕ)
  pub content : Text
  pub opens_file : Bool
  pub opens_device : Bool
  pub reads : ℕ → Bool
  pub fibmap : ℕ → Option ℕ
  pub writes_block : ℕ → Bool
  pub writes_map : ℕ → Bool
  pub syncs_map : Bool
  pub closes_map : Bool
  pub syncs_device : Bool
  pub closes_device : Bool
  pub renames_map : Bool
  pub opens_dir : Bool
  pub syncs_dir : Bool
  pub closes_dir : Bool

-- A division by zero is a fault.
pub data Result (A : Type 0) : Type 0 where
  ok : A → Result A
  error : UncryptErrorCode → Result A
  fault : Result A

unfoldable pub and_then : {A B : Type 0} → (A → Result B) → Result A → Result B
and_then f (ok a) = f a
and_then f (error code) = error code
and_then f fault = fault

abbrev pub require : Bool → UncryptErrorCode → Result (Unit {0})
require b code = if b then ok tt else error code

-- The variables of the loops, and what was written to the device so far, with the places.
pub record Window : Type 0 where
  pub ranges : List ℕ
  pub buffers : List Text
  pub head_block : ℕ
  pub head : ℕ
  pub tail : ℕ
  pub pos : ℕ
  pub writes : List (ℕ × Text)

-- `buffers[i]`.
unfoldable pub buffer_at : List Text → ℕ → Text
buffer_at [] i = []
buffer_at (b ∷ buffers) zero = b
buffer_at (b ∷ buffers) (suc i) = buffer_at buffers i

-- A read into the front of `buffers[i]`.
unfoldable pub read_into : List Text → ℕ → Text → List Text
read_into [] i bytes = []
read_into (b ∷ buffers) zero bytes = (bytes ++ drop (length bytes) b) ∷ buffers
read_into (b ∷ buffers) (suc i) bytes = b ∷ read_into buffers i bytes

module _ (system : System) (size blksize : ℕ) (encrypted : Bool) where
  abbrev pub moved_on : ℕ → Window → Window
  moved_on block w = record w {
    ranges = add_block_to_ranges w.ranges block;
    writes =
        if encrypted
        then w.writes ++ (blksize * block, buffer_at w.buffers w.head) ∷ []
        else w.writes;
    head = (w.head + 1) % window_size;
    head_block = w.head_block + 1;
  }

  abbrev pub write_mapped : Window → Option ℕ → Result Window
  write_mapped w none = error uncrypt_ioctl_error
  write_mapped w (some block) =
      if encrypted && not (system.writes_block (blksize * block))
      then error uncrypt_write_error
      else ok (moved_on block w)

  -- "write out head buffer"
  unfoldable pub write_head : Window → Result Window
  write_head w = write_mapped w (system.fibmap w.head_block)

  -- The front buffer is written out if the window is full.
  unfoldable pub make_room : Window → Result Window
  make_room w = if (w.tail + 1) % window_size == w.head then write_head w else ok w

  abbrev pub to_read : Window → ℕ
  to_read w = if ltb blksize (size - w.pos) then blksize else size - w.pos

  -- "read next block to tail"
  unfoldable pub read_tail : Window → Result Window
  read_tail w =
      if not encrypted
      then ok (record w { pos = w.pos + blksize; tail = (w.tail + 1) % window_size })
      else if not (system.reads w.pos)
      then error uncrypt_read_error
      else ok (record w {
        buffers = read_into w.buffers w.tail (take (to_read w) (drop w.pos system.content));
        pos = w.pos + to_read w;
        tail = (w.tail + 1) % window_size;
      })

  -- The loop over the file; a round moves on by a byte at least.
  unfoldable pub fill_loop : ℕ → Window → Result Window
  fill_loop zero w = ok w
  fill_loop (suc fuel) w =
      if ltb w.pos size
      then and_then (λ v. and_then (fill_loop fuel) (read_tail v)) (make_room w)
      else ok w

  -- The loop over what is left in the window.
  unfoldable pub drain_loop : ℕ → Window → Result Window
  drain_loop zero w = ok w
  drain_loop (suc fuel) w =
      if w.head == w.tail then ok w else and_then (drain_loop fuel) (write_head w)

  unfoldable pub start_window : Window
  start_window = record {
    ranges = [];
    buffers = if encrypted then replicate window_size (replicate blksize 0) else [];
    head_block = 0;
    head = 0;
    tail = 0;
    pos = 0;
    writes = [];
  }

  -- Both loops.
  unfoldable pub collect : Result Window
  collect = and_then (drain_loop window_size) (fill_loop size start_window)

-- The lines for the ranges, the first of which is write number `n` to the map.
unfoldable pub write_range_lines : System → ℕ → List ℕ → Text → Result Text
write_range_lines system n [] s = ok s
write_range_lines system n (_ ∷ []) s = fault
write_range_lines system n (first ∷ last ∷ ranges) s =
    if system.writes_map n
    then write_range_lines system (n + 1) ranges
        (s ++ (to_string first ++ (codes " " ++ (to_string last ++ codes "\n"))))
    else error uncrypt_write_error

-- The first two lines of the map.
unfoldable pub map_header : Text → ℕ → ℕ → Text
map_header blk_dev size blksize =
    blk_dev ++ (codes "\n" ++ (to_string size ++ (codes " " ++ (to_string blksize ++ codes "\n"))))

-- The map's lines behind the header.
unfoldable pub write_map : System → Text → Window → Result (Window × Text)
write_map system s w =
    if system.writes_map 1
    then and_then (λ t. ok (w, t))
        (write_range_lines system 2 w.ranges (s ++ (to_string (length w.ranges / 2) ++ codes "\n")))
    else error uncrypt_write_error

-- What is made sure of once the map is written.
unfoldable pub publish : System → Bool → Window × Text → Result (Window × Text)
publish system encrypted r =
    and_then (λ _. ok r)
      (if not system.syncs_map
        then error uncrypt_file_sync_error
        else if not system.closes_map
        then error uncrypt_file_close_error
        else if encrypted && not system.syncs_device
        then error uncrypt_file_sync_error
        else if encrypted && not system.closes_device
        then error uncrypt_file_close_error
        else if not system.renames_map
        then error uncrypt_file_rename_error
        else if not system.opens_dir
        then error uncrypt_file_open_error
        else if not system.syncs_dir
        then error uncrypt_file_sync_error
        else require system.closes_dir uncrypt_file_close_error)

-- From the header of the map on.
unfoldable pub map_file : System → Text → Bool → ℕ → ℕ → Result (Window × Text)
map_file system blk_dev encrypted size blksize =
    if blksize == 0
    then fault
    else if not (system.writes_map 0)
    then error uncrypt_write_error
    else if not system.opens_file
    then error uncrypt_file_open_error
    else if encrypted && not system.opens_device
    then error uncrypt_block_open_error
    else and_then (publish system encrypted) (
        and_then (write_map system (map_header blk_dev size blksize))
          (collect system size blksize encrypted))

abbrev pub map_stat : System → Text → Bool → Option (ℕ × ℕ) → Result (Window × Text)
map_stat system blk_dev encrypted none = error uncrypt_file_stat_error
map_stat system blk_dev encrypted (some (size, blksize)) =
    map_file system blk_dev encrypted size blksize

-- `produce_block_map`: on success, the window at the end and the text of the map file.
unfoldable pub produce_block_map : System → Text → Bool → Result (Window × Text)
produce_block_map system blk_dev encrypted =
    if not system.removes_map
    then error uncrypt_file_remove_error
    else if not system.opens_map
    then error uncrypt_file_open_error
    else if not system.writes_status
    then error uncrypt_socket_write_error
    else map_stat system blk_dev encrypted system.stat
