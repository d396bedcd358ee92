-- ===== src/RotateLogs/Defs.antt =====
-- rotate_logs.cpp: the names of logs in the persistent store, and the shift of the kept logs. `ParseUint` of
-- libbase is a parameter.
use recovery.Base.{
  ℕ, suc, zero, ◌+◌, ◌/◌, ◌%◌, ◌^◌, ◌==◌, ltb, leb, Bool, true, false, not, ◌||◌, ◌&&◌, ◌++◌, [],
  ◌∷◌, Text, codes, text_eq, is_infix, Option, none, some, if◌then◌else◌,
}

abbrev pub last_kmsg_filter : Text
last_kmsg_filter = codes "recovery/last_kmsg"

abbrev pub last_log_filter : Text
last_log_filter = codes "recovery/last_log"

abbrev pub in_filters : Text → Bool
in_filters name = is_infix name last_kmsg_filter || is_infix name last_log_filter

-- `logbasename`: the flag after a call.
unfoldable pub logbasename : Text → Bool → Bool
logbasename filename do_rotate = if in_filters filename then true else do_rotate

-- `std::to_string`: at most `fuel` digits more than one.
unfoldable pub digits : ℕ → ℕ → Text
digits zero n = (48 + n % 10) ∷ []
digits (suc fuel) n =
    let front = digits fuel (n / 10) in
    if ltb n 10 then (48 + n) ∷ [] else front ++ (48 + n % 10) ∷ []

unfoldable pub to_string : ℕ → Text
to_string n = digits n n

-- The parts before and behind the last dot.
abbrev pub front_more : ℕ → Option (Text × Text) → Text → Option (Text × Text)
front_more c none t = if c == 46 then some ([], t) else none
front_more c (some (sub, number)) t = some (c ∷ sub, number)

unfoldable pub split_last_dot : Text → Option (Text × Text)
split_last_dot [] = none
split_last_dot (c ∷ t) = front_more c (split_last_dot t) t

abbrev pub starts_with_digit : Text → Bool
starts_with_digit [] = false
starts_with_digit (c ∷ _) = leb 48 c && leb c 57

module _ (parse_uint : Text → Option ℕ) where
  abbrev pub counted_up : Text → Option ℕ → Option Text
  counted_up sub none = none
  counted_up sub (some i) = some (sub ++ codes "." ++ to_string ((i + 1) % 2 ^ 64))

  -- The name under which `logrotate` writes, once the flag is set; none is the result -1.
  abbrev pub rotated_name : Text → Option (Text × Text) → Option Text
  rotated_name filename none =
      some (if in_filters filename then filename ++ codes ".1" else filename)
  rotated_name filename (some (sub, number)) =
      if not (in_filters sub)
      then some filename
      else if not (starts_with_digit number)
      then some (filename ++ codes ".1")
      else counted_up sub (parse_uint number)

  unfoldable pub logrotate : Bool → Text → Option Text
  logrotate do_rotate filename =
      if not do_rotate then some filename else rotated_name filename (split_last_dot filename)

abbrev pub keep_log_count : ℕ
keep_log_count = 10

-- The content of each file, if it exists.
abbrev pub Files : Type 0
Files = Text → Option Text

-- `rename(old, new)` of two different paths; it does nothing where the old one does not exist.
unfoldable pub move_to : Text → Text → Option Text → Files → Files
move_to old new none files = files
move_to old new (some content) files =
    λ path. if text_eq path new then some content else if text_eq path old then none else files path

unfoldable pub rename : Text → Text → Files → Files
rename old new files = move_to old new (files old) files

-- The name of the log that is `i` runs old.
unfoldable pub old_name : Text → ℕ → Text
old_name file zero = file
old_name file (suc i) = file ++ (codes "." ++ to_string (suc i))

unfoldable pub rotate_step : Text → Text → ℕ → Files → Files
rotate_step last_log_file last_kmsg_file i files =
    rename (old_name last_kmsg_file i) (old_name last_kmsg_file (suc i))
      (rename (old_name last_log_file i) (old_name last_log_file (suc i)) files)

-- The loop with i from `left - 1` down.
unfoldable pub rotate_loop : Text → Text → ℕ → Files → Files
rotate_loop last_log_file last_kmsg_file zero files = files
rotate_loop last_log_file last_kmsg_file (suc i) files =
    rotate_loop last_log_file last_kmsg_file i (rotate_step last_log_file last_kmsg_file i files)

-- `rotate_logs`: whether logs were rotated before, and the files.
unfoldable pub rotate_logs : Text → Text → Bool × Files → Bool × Files
rotate_logs last_log_file last_kmsg_file (rotated, files) =
    if rotated
    then (rotated, files)
    else (true, rotate_loop last_log_file last_kmsg_file keep_log_count files)
