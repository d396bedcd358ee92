-- ===== src/Blockimg/UpdateTests.antt =====
-- updater/blockimg.cpp: runs of the update on a device of three blocks.
use recovery.Base.{
  ℕ, ◌+◌, ◌-◌, ◌*◌, ◌≤◌, ◌≡◌, refl, ◌==◌, leb, Bool, true, false, ◌&&◌, ◌++◌, List, [], ◌∷◌,
  replicate, get_or, Text, codes, Option, none, some, if◌then◌else◌, arith,
}
use recovery.ErrorCode.{no_cause}
use recovery.Edify.Defs.{Value, string, blob, Arg, value}
use recovery.Blockimg.Ranges.{block_size}
use recovery.Blockimg.Parsed.{WithinLimit}
use recovery.Blockimg.Machine.{Env, Machine, Outcome, ok}
use recovery.Blockimg.Update.{UpdaterInfo, Result}
use recovery.Blockimg.DryRun.Run.{Unchanged, block_image_verify_fn-Unchanged}
use recovery.Blockimg.Machine.{
  ◌>>=◌, ◌>>◌, pure, done, get, stop, modify, set_params, attempt, with_buffer, fail_as, abort_with,
  system_call, or_fail, require,
}
use recovery.Blockimg.Transfer.{
  splice, read_call, read_loop, read_all, append_to, sent, write_call, write_loop, write_all,
  discarded_bytes, discard, discard_blocks, check_lseek, allocate, read_range, read_ranges,
  read_blocks, write_range, write_ranges, write_blocks, verify_blocks,
}
use recovery.Blockimg.Stash.{
  resolve, find_file, remove_file, has_dir, get_stash_file_name, stat_file, delete_file, ends_with,
  delete_partial, no_slash, names_in, for_each, stash_names, enumerate_stash, remove_dir, rmdir,
  delete_stash, free_stash, cache_size_check, int_bytes,
}
use recovery.Blockimg.Stashing.{
  find_stash, erase_stash, load_source, load_bytes, load_file, load_stash, renamed, create_file,
  write_stash_file, write_stash, write_stash_checked,
}
use recovery.Blockimg.Saving.{
  to_int, more_needed, add_size, stash_size, call_failed, make_stash, check_more, reuse_stash,
  create_stash, next_token, parse_or_exit, save_blocks, save_stash,
}
use recovery.Blockimg.Load.{
  need_tokens, load_src_tgt_version1, fits_inside, move_packed, move_stashed, load_words,
  remaining_words, load_source_range, load_src_tgt_version2, verify_target, stash_overlapping,
  load_interrupted, load_src_tgt_hashed, load_src_tgt_version3,
}
use recovery.Blockimg.Sink.{next_range, sink_round, sink_loop, range_sink_write, receive, amount}
use recovery.Blockimg.Commands.{
  load_src_tgt, free_own_stash, perform_loaded, perform_command_move, perform_command_stash,
  perform_command_free, zero_blocks, zero_ranges, clear_block, perform_command_zero, open_sink,
  await_new_data, perform_command_new, apply_patch, write_patched, perform_command_diff,
  erase_ranges, perform_command_erase,
}
use recovery.Blockimg.Update.{
  abort_empty, run_command, run_line, run_lines, all_received, complete, finish_update,
  run_commands, run_transfer_list,
}
use recovery.Blockimg.Functions.{
  argument_error, new_params, start_update, with_info, with_arguments, perform_block_image_update,
  verify_commands, update_commands, block_image_verify_fn, block_image_update_fn,
}
use recovery.Blockimg.Move.{
  memmove, move_loop, move_range, move_from_loop, move_range_from, blocks_before,
}
use recovery.Blockimg.Ranges.{
  parse_pair, parse_pairs, parse_counted, parse_pieces, parse_range, overlaps_from,
  any_overlaps_from, range_overlaps,
}
use recovery.PrintSha1.{hex_digit, print_sha1}
use recovery.Freecache.Defs.{
  insert, erase, eliminate_links, eliminate_processes, eliminate_open_files, collect_entries,
  collect_dirs, find_expendable_files, delete_loop, free_from, make_free_space_on_cache,
}
use recovery.Edify.Defs.{initial_state, string_value, error_abort}
use recovery.Edify.Builtins.{read_value_args}
use recovery.Blockimg.Load.{Loaded}
use recovery.Blockimg.Version3.{LoadedBy, load_src_tgt_version3-LoadedBy}
use recovery.Blockimg.Targets.{Disjoint, WroteRanges, write_blocks-WroteRanges}
use recovery.Blockimg.Resumable.{Plain, TargetHashed, perform_command_move-TargetHashed}

abbrev digit : ℕ → Bool
digit c = leb 48 c && leb c 57

-- A decimal number, from its digits so far.
digits_from : ℕ → Text → Option ℕ
digits_from n [] = some n
digits_from n (c ∷ t) =
    let rest = digits_from (n * 10 + (c - 48)) t in if digit c then rest else none

abbrev bounded : ℕ → Option ℕ → Option ℕ
bounded limit none = none
bounded limit (some n) = if leb n limit then some n else none

parse_number : Text → ℕ → Option ℕ
parse_number [] limit = none
parse_number (c ∷ t) limit = bounded limit (digits_from 0 (c ∷ t))

-- The parts between separators; the last one so far is built from its end.
split_at : ℕ → Text → List Text
split_at sep [] = [] ∷ []
split_at sep (c ∷ t) = extend (split_at sep t)
  where
    extend : List Text → List Text
    extend [] = []
    extend (part ∷ parts) = if c == sep then [] ∷ part ∷ parts else (c ∷ part) ∷ parts

first_byte : Text → List ℕ
first_byte [] = []
first_byte (b ∷ t) = b ∷ []

-- Calls that never fail, and a digest that is the first byte.
example_env : Env
example_env = record {
  read_result = λ time size. some size;
  write_result = λ time size. some size;
  fails = λ time. false;
  discarded = λ time place. 0;
  is_block_device = true;
  strerror = λ time. [];
  sha1 = first_byte;
  split = split_at;
  parse_uint = parse_number;
  parse_int = λ t min max. parse_number t max;
  cache = λ time. record { opendir = λ dir. none; proc = none; free_space = λ gone. 1000000 };
  less = λ s t. false;
  bzip2 = record { decompress = λ t. t; stalls = λ t. false };
  zlib = record { inflate = λ t. none; deflate = λ room settings t. none };
  retries = 0;
}

filled : ℕ → Text
filled b = replicate block_size b

-- The blocks 7, 8 and 9.
three_blocks : Text
three_blocks = filled 7 ++ (filled 8 ++ filled 9)

example_info : UpdaterInfo
example_info = record {
  has_pipe = true;
  has_zip = true;
  patch_entry = λ name. some [];
  new_entry = λ name. some (filled 5 ∷ []);
  devices = λ name. some three_blocks;
}

abbrev argument : Value → Arg
argument v = record { run = λ s. (value v, s); start = 0; stop = 0 }

arguments_with : Text → List Arg
arguments_with list =
    argument (record { type = string; bytes = codes "dev" })
    ∷ argument (record { type = blob; bytes = list })
    ∷ argument (record { type = string; bytes = codes "new" })
    ∷ argument (record { type = string; bytes = codes "patch" })
    ∷ []

-- Blocks 0 and 1 move one up; then block 0 is new.
move_list : List Arg
move_list = arguments_with (codes "4\n3\n0\n0\nmove 07 2,1,3 2 2,0,2\nnew 2,0,1")

example_machine : Machine
example_machine = record {
  params = new_params false;
  buffer = [];
  device = [];
  offset = 0;
  files = [];
  dirs = [];
  stash_map = [];
  failure_type = no_cause;
  is_retry = false;
  sink = record { tgt = record { count = 0; size = 0; pos = [] }; p_block = 0; p_remain = 0 };
  new_data = [];
  state = initial_state [];
  tick = 0;
}

abbrev moved : Outcome Result × Machine
moved =
    block_image_update_fn example_env (some example_info) (codes "block_image_update") move_list
      example_machine

-- The first byte of each block afterwards.
update_moves :
    (get_or moved.1.device 0 0 ∷ get_or moved.1.device 4096 0 ∷ get_or moved.1.device 8192 0 ∷ [])
    ≡ 5 ∷ 7 ∷ 8 ∷ []
unfolding ◌>>=◌ ◌>>◌ pure done get stop modify set_params attempt with_buffer fail_as abort_with
    system_call or_fail require splice read_call read_loop read_all append_to sent write_call
    write_loop write_all discarded_bytes discard discard_blocks check_lseek allocate read_range
    read_ranges read_blocks write_range write_ranges write_blocks verify_blocks resolve find_file
    remove_file has_dir get_stash_file_name stat_file delete_file ends_with delete_partial no_slash
    names_in for_each stash_names enumerate_stash remove_dir rmdir delete_stash free_stash
    cache_size_check int_bytes find_stash erase_stash load_source load_bytes load_file load_stash
    renamed create_file write_stash_file write_stash write_stash_checked to_int add_size more_needed
    stash_size call_failed make_stash check_more reuse_stash create_stash next_token parse_or_exit
    save_blocks save_stash need_tokens load_src_tgt_version1 fits_inside move_packed move_stashed
    load_words remaining_words load_source_range load_src_tgt_version2 verify_target
    stash_overlapping load_interrupted load_src_tgt_hashed load_src_tgt_version3 next_range
    sink_round sink_loop range_sink_write receive amount load_src_tgt free_own_stash perform_loaded
    perform_command_move perform_command_stash perform_command_free zero_blocks zero_ranges
    clear_block perform_command_zero open_sink await_new_data perform_command_new apply_patch
    write_patched perform_command_diff erase_ranges perform_command_erase abort_empty run_command
    run_line run_lines all_received complete finish_update run_commands run_transfer_list
    argument_error new_params start_update with_info with_arguments perform_block_image_update
    verify_commands update_commands block_image_verify_fn block_image_update_fn memmove move_loop
    move_range move_from_loop move_range_from blocks_before parse_pair parse_pairs parse_counted
    parse_pieces parse_range overlaps_from any_overlaps_from range_overlaps hex_digit print_sha1
    insert erase eliminate_links eliminate_processes eliminate_open_files collect_entries
    collect_dirs find_expendable_files delete_loop free_from make_free_space_on_cache initial_state
    string_value error_abort read_value_args example_machine example_env example_info move_list
    arguments_with three_blocks filled first_byte split_at parse_number digits_from
update_moves = refl

block_image_verify_fn-Unchanged_example :
    Unchanged
      (some example_info)
      []
      (block_image_verify_fn example_env
        (some example_info)
        (codes "block_image_verify")
        move_list
        example_machine).1.device
unfolding example_machine
block_image_verify_fn-Unchanged_example =
    block_image_verify_fn-Unchanged example_env (some example_info) (codes "block_image_verify")
      move_list example_machine

bounded-le : (limit n : ℕ) (o : Option ℕ) → bounded limit o ≡ some n → n ≤ limit
bounded-le limit n none e = cc
bounded-le limit n (some k) e = ground arith

parse_number-WithinLimit : WithinLimit parse_number
unfolding parse_number
parse_number-WithinLimit = record { limited = limited }
  where
    limited : (t : Text) (limit n : ℕ) → parse_number t limit ≡ some n → n ≤ limit
    limited [] limit n e = cc
    limited (c ∷ t) limit n e = bounded-le limit n (digits_from 0 (c ∷ t)) e

-- The move of the transfer list, by itself.
move_start : Machine
move_start = record example_machine {
  device = three_blocks;
  dirs = codes "/cache/recovery/64/" ∷ [];
  params = record (new_params true) {
    tokens = codes "07" ∷ codes "2,1,3" ∷ codes "2" ∷ codes "2,0,2" ∷ [];
    stashbase = codes "64";
    version = 4;
  };
}

move_loaded_set : Loaded
move_loaded_set = record {
  tgt = record { count = 1; size = 2; pos = 1 ∷ 3 ∷ [] };
  src_blocks = 2;
  overlap = true;
  completed = false;
}

move_loads :
    load_src_tgt_version3 example_env true move_start
    ≡ (ok move_loaded_set, (load_src_tgt_version3 example_env true move_start).1)
unfolding ◌>>=◌ ◌>>◌ pure done get stop modify set_params attempt with_buffer fail_as abort_with
    system_call or_fail require splice read_call read_loop read_all append_to sent write_call
    write_loop write_all discarded_bytes discard discard_blocks check_lseek allocate read_range
    read_ranges read_blocks write_range write_ranges write_blocks verify_blocks resolve find_file
    remove_file has_dir get_stash_file_name stat_file delete_file ends_with delete_partial no_slash
    names_in for_each stash_names enumerate_stash remove_dir rmdir delete_stash free_stash
    cache_size_check int_bytes find_stash erase_stash load_source load_bytes load_file load_stash
    renamed create_file write_stash_file write_stash write_stash_checked to_int add_size more_needed
    stash_size call_failed make_stash check_more reuse_stash create_stash next_token parse_or_exit
    save_blocks save_stash need_tokens load_src_tgt_version1 fits_inside move_packed move_stashed
    load_words remaining_words load_source_range load_src_tgt_version2 verify_target
    stash_overlapping load_interrupted load_src_tgt_hashed load_src_tgt_version3 next_range
    sink_round sink_loop range_sink_write receive amount load_src_tgt free_own_stash perform_loaded
    perform_command_move perform_command_stash perform_command_free zero_blocks zero_ranges
    clear_block perform_command_zero open_sink await_new_data perform_command_new apply_patch
    write_patched perform_command_diff erase_ranges perform_command_erase abort_empty run_command
    run_line run_lines all_received complete finish_update run_commands run_transfer_list
    argument_error new_params start_update with_info with_arguments perform_block_image_update
    verify_commands update_commands block_image_verify_fn block_image_update_fn memmove move_loop
    move_range move_from_loop move_range_from blocks_before parse_pair parse_pairs parse_counted
    parse_pieces parse_range overlaps_from any_overlaps_from range_overlaps hex_digit print_sha1
    insert erase eliminate_links eliminate_processes eliminate_open_files collect_entries
    collect_dirs find_expendable_files delete_loop free_from make_free_space_on_cache initial_state
    string_value error_abort read_value_args example_machine example_env example_info move_list
    arguments_with three_blocks filled first_byte split_at parse_number digits_from move_start
    move_loaded_set
move_loads = refl

limits_example : WithinLimit example_env.parse_uint
unfolding example_env
limits_example = parse_number-WithinLimit

load_src_tgt_version3-LoadedBy_example :
    LoadedBy example_env limits_example move_start true move_loaded_set
      (load_src_tgt_version3 example_env true move_start).1
load_src_tgt_version3-LoadedBy_example =
    load_src_tgt_version3-LoadedBy example_env limits_example true move_start
      (load_src_tgt_version3 example_env true move_start).1 move_loaded_set move_loads

-- A move of the first block to the last one.
apart_start : Machine
unfolding move_start
apart_start = record move_start {
  params = record move_start.params {
    tokens = codes "07" ∷ codes "2,2,3" ∷ codes "1" ∷ codes "2,0,1" ∷ [];
  };
}

apart_loaded : Loaded
apart_loaded = record {
  tgt = record { count = 1; size = 1; pos = 2 ∷ 3 ∷ [] };
  src_blocks = 1;
  overlap = false;
  completed = false;
}

apart_loads :
    load_src_tgt_version3 example_env true apart_start
    ≡ (ok apart_loaded, (load_src_tgt_version3 example_env true apart_start).1)
unfolding ◌>>=◌ ◌>>◌ pure done get stop modify set_params attempt with_buffer fail_as abort_with
    system_call or_fail require splice read_call read_loop read_all append_to sent write_call
    write_loop write_all discarded_bytes discard discard_blocks check_lseek allocate read_range
    read_ranges read_blocks write_range write_ranges write_blocks verify_blocks resolve find_file
    remove_file has_dir get_stash_file_name stat_file delete_file ends_with delete_partial no_slash
    names_in for_each stash_names enumerate_stash remove_dir rmdir delete_stash free_stash
    cache_size_check int_bytes find_stash erase_stash load_source load_bytes load_file load_stash
    renamed create_file write_stash_file write_stash write_stash_checked to_int add_size more_needed
    stash_size call_failed make_stash check_more reuse_stash create_stash next_token parse_or_exit
    save_blocks save_stash need_tokens load_src_tgt_version1 fits_inside move_packed move_stashed
    load_words remaining_words load_source_range load_src_tgt_version2 verify_target
    stash_overlapping load_interrupted load_src_tgt_hashed load_src_tgt_version3 next_range
    sink_round sink_loop range_sink_write receive amount load_src_tgt free_own_stash perform_loaded
    perform_command_move perform_command_stash perform_command_free zero_blocks zero_ranges
    clear_block perform_command_zero open_sink await_new_data perform_command_new apply_patch
    write_patched perform_command_diff erase_ranges perform_command_erase abort_empty run_command
    run_line run_lines all_received complete finish_update run_commands run_transfer_list
    argument_error new_params start_update with_info with_arguments perform_block_image_update
    verify_commands update_commands block_image_verify_fn block_image_update_fn memmove move_loop
    move_range move_from_loop move_range_from blocks_before parse_pair parse_pairs parse_counted
    parse_pieces parse_range overlaps_from any_overlaps_from range_overlaps hex_digit print_sha1
    insert erase eliminate_links eliminate_processes eliminate_open_files collect_entries
    collect_dirs find_expendable_files delete_loop free_from make_free_space_on_cache initial_state
    string_value error_abort read_value_args example_machine example_env example_info move_list
    arguments_with three_blocks filled first_byte split_at parse_number digits_from move_start
    apart_start apart_loaded
apart_loads = refl

apart_moves :
    perform_command_move example_env apart_start
    ≡ (ok tt, (perform_command_move example_env apart_start).1)
unfolding ◌>>=◌ ◌>>◌ pure done get stop modify set_params attempt with_buffer fail_as abort_with
    system_call or_fail require splice read_call read_loop read_all append_to sent write_call
    write_loop write_all discarded_bytes discard discard_blocks check_lseek allocate read_range
    read_ranges read_blocks write_range write_ranges write_blocks verify_blocks resolve find_file
    remove_file has_dir get_stash_file_name stat_file delete_file ends_with delete_partial no_slash
    names_in for_each stash_names enumerate_stash remove_dir rmdir delete_stash free_stash
    cache_size_check int_bytes find_stash erase_stash load_source load_bytes load_file load_stash
    renamed create_file write_stash_file write_stash write_stash_checked to_int add_size more_needed
    stash_size call_failed make_stash check_more reuse_stash create_stash next_token parse_or_exit
    save_blocks save_stash need_tokens load_src_tgt_version1 fits_inside move_packed move_stashed
    load_words remaining_words load_source_range load_src_tgt_version2 verify_target
    stash_overlapping load_interrupted load_src_tgt_hashed load_src_tgt_version3 next_range
    sink_round sink_loop range_sink_write receive amount load_src_tgt free_own_stash perform_loaded
    perform_command_move perform_command_stash perform_command_free zero_blocks zero_ranges
    clear_block perform_command_zero open_sink await_new_data perform_command_new apply_patch
    write_patched perform_command_diff erase_ranges perform_command_erase abort_empty run_command
    run_line run_lines all_received complete finish_update run_commands run_transfer_list
    argument_error new_params start_update with_info with_arguments perform_block_image_update
    verify_commands update_commands block_image_verify_fn block_image_update_fn memmove move_loop
    move_range move_from_loop move_range_from blocks_before parse_pair parse_pairs parse_counted
    parse_pieces parse_range overlaps_from any_overlaps_from range_overlaps hex_digit print_sha1
    insert erase eliminate_links eliminate_processes eliminate_open_files collect_entries
    collect_dirs find_expendable_files delete_loop free_from make_free_space_on_cache initial_state
    string_value error_abort read_value_args example_machine example_env example_info move_list
    arguments_with three_blocks filled first_byte split_at parse_number digits_from move_start
    apart_start apart_loaded
apart_moves = refl

apart_writes :
    write_blocks example_env apart_loaded.tgt (load_src_tgt_version3 example_env true apart_start).1
    ≡ (
      ok tt,
      (write_blocks example_env apart_loaded.tgt
          (load_src_tgt_version3 example_env true apart_start).1).1,
    )
unfolding ◌>>=◌ ◌>>◌ pure done get stop modify set_params attempt with_buffer fail_as abort_with
    system_call or_fail require splice read_call read_loop read_all append_to sent write_call
    write_loop write_all discarded_bytes discard discard_blocks check_lseek allocate read_range
    read_ranges read_blocks write_range write_ranges write_blocks verify_blocks resolve find_file
    remove_file has_dir get_stash_file_name stat_file delete_file ends_with delete_partial no_slash
    names_in for_each stash_names enumerate_stash remove_dir rmdir delete_stash free_stash
    cache_size_check int_bytes find_stash erase_stash load_source load_bytes load_file load_stash
    renamed create_file write_stash_file write_stash write_stash_checked to_int add_size more_needed
    stash_size call_failed make_stash check_more reuse_stash create_stash next_token parse_or_exit
    save_blocks save_stash need_tokens load_src_tgt_version1 fits_inside move_packed move_stashed
    load_words remaining_words load_source_range load_src_tgt_version2 verify_target
    stash_overlapping load_interrupted load_src_tgt_hashed load_src_tgt_version3 next_range
    sink_round sink_loop range_sink_write receive amount load_src_tgt free_own_stash perform_loaded
    perform_command_move perform_command_stash perform_command_free zero_blocks zero_ranges
    clear_block perform_command_zero open_sink await_new_data perform_command_new apply_patch
    write_patched perform_command_diff erase_ranges perform_command_erase abort_empty run_command
    run_line run_lines all_received complete finish_update run_commands run_transfer_list
    argument_error new_params start_update with_info with_arguments perform_block_image_update
    verify_commands update_commands block_image_verify_fn block_image_update_fn memmove move_loop
    move_range move_from_loop move_range_from blocks_before parse_pair parse_pairs parse_counted
    parse_pieces parse_range overlaps_from any_overlaps_from range_overlaps hex_digit print_sha1
    insert erase eliminate_links eliminate_processes eliminate_open_files collect_entries
    collect_dirs find_expendable_files delete_loop free_from make_free_space_on_cache initial_state
    string_value error_abort read_value_args example_machine example_env example_info move_list
    arguments_with three_blocks filled first_byte split_at parse_number digits_from move_start
    apart_start apart_loaded
apart_writes = refl

apart_Disjoint : Disjoint apart_loaded.tgt
unfolding apart_loaded
apart_Disjoint = record { separate = λ i j h k n. absurd (n (let e : i ≡ j = omega arith in e)) }

apart_Plain : Plain apart_loaded
unfolding apart_loaded
apart_Plain = record { apart = refl; even = refl; disjoint = apart_Disjoint; counted = omega arith }

apart_writing : apart_start.params.canwrite ≡ true
unfolding move_start apart_start example_machine new_params
apart_writing = refl

apart_version : 3 ≤ apart_start.params.version
unfolding move_start apart_start example_machine new_params
apart_version = omega arith

perform_command_move-TargetHashed_example :
    TargetHashed example_env limits_example apart_start apart_loaded
      (perform_command_move example_env apart_start).1
perform_command_move-TargetHashed_example =
    perform_command_move-TargetHashed example_env limits_example apart_start
      (load_src_tgt_version3 example_env true apart_start).1
      (perform_command_move example_env apart_start).1 apart_loaded apart_writing apart_version
      apart_loads apart_Plain apart_moves

write_blocks-WroteRanges_example :
    WroteRanges apart_loaded.tgt 0 apart_loaded.tgt.count 0
      (load_src_tgt_version3 example_env true apart_start).1.device
      (load_src_tgt_version3 example_env true apart_start).1.buffer
      (write_blocks example_env apart_loaded.tgt
        (load_src_tgt_version3 example_env true apart_start).1).1.device
write_blocks-WroteRanges_example =
    write_blocks-WroteRanges example_env apart_loaded.tgt apart_Disjoint
      (load_src_tgt_version3 example_env true apart_start).1
      (write_blocks example_env apart_loaded.tgt
        (load_src_tgt_version3 example_env true apart_start).1).1
      apart_writes
