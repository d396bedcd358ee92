-- ===== src/Lib.antt =====
-- Verification library for the recovery: the programs that check and install updates.
--
-- The recovery verifies a package's signature, reads the package from the sideload file system when a
-- host sends it, and starts its updater, which runs an edify script; the script's functions patch block
-- images and files. The files here model these parts:
--
-- - Verifier (verifier.cpp, verifier.h): `verify_file` over the bytes of a package. Pkcs7 is `read_pkcs7`,
--   Memory the reads of the package, Defs the tests of the footer, the digests and the loop over the keys;
--   Checked compares the tests with their reads to the tests alone. BoringSSL's digests and
--   signature checks are parameters, in the record Crypto.
-- - Asn1 (asn1_decoder.cpp): the reader of DER that `read_pkcs7` uses, function by function on a context.
-- - Fuse (fuse_sideload.cpp, fuse_sideload.h): Defs has `struct fuse_data` with `fetch_block` and the
--   body of `handle_read`, Requests the other handlers and the switch, Session the sizes that
--   `run_fuse_sideload` accepts and its loop. The host's `read_block` and SHA-256 are parameters.
-- - Edify (edify/expr.cpp, edify/expr.h): Defs has values, the state and evaluation, Builtins the functions,
--   Table the table of functions. A call is a function from a state to an outcome and a state; reading
--   past the arguments is the outcome `fault`. Runs has rules for the meaning of scripts, Yields the calls
--   that do not fail.
-- - Freecache (applypatch/freecache.cpp): `MakeFreeSpaceOnCache` and the search for expendable files. What the
--   file system holds, and the space that is free once some files are gone, is a parameter.
-- - Applypatch (applypatch/utils.cpp, applypatch/bspatch.cpp): the numbers of the patch format, and the
--   application of a binary patch. What libbz2 unpacks, and whether it stalls on a stream that is cut off, is
--   a parameter.
--   Imgpatch (applypatch/imgpatch.cpp) is the chunk loop of `ApplyImagePatch` over any sink, ParseSha1
--   (applypatch/applypatch.cpp) is `ParseSha1` and `FindMatchingPatch`.
-- - Blockimg (updater/blockimg.cpp): block image updates. Ranges has range sets, `parse_range` and
--   `range_overlaps`, Move `MoveRange`. Machine has the state, which is `CommandParameters` with the
--   globals, the device, the files on /cache and a clock of system calls, and Env, what the system
--   answers at each time; Transfer reads and writes blocks, Stash, Stashing and Saving keep stashes, Load
--   is `LoadSrcTgtVersion1` to `LoadSrcTgtVersion3`, Sink `RangeSinkWrite` and `receive_new_data`, Commands
--   the commands, Update and Functions `PerformBlockImageUpdate` with its two callers. A call ends with a
--   value, with -1, with exit(1), with undefined behaviour or never. Keeps and Triple are the rules by
--   which statements about calls are proved from their parts; DryRun, Reads, Verified, Sources, Version3,
--   Written, Targets and Resumable use them.
-- - PrintSha1 (print_sha1.h): digests as texts.
-- - RotateLogs (rotate_logs.cpp, rotate_logs.h): `logrotate` and `logbasename`, and `rotate_logs` over a file
--   system as a function from paths; `ParseUint` is a parameter.
-- - Uncrypt (uncrypt/uncrypt.cpp): `add_block_to_ranges` and `produce_block_map`, which writes the map of the
--   blocks that hold a package. What the calls of the system answer is in the record System; Window and
--   Collected follow the window of buffers through both loops.
-- - SysUtil (otautil/SysUtil.cpp, otautil/SysUtil.h): `sysMapFile`, which maps a file, or a package by the map of
--   its blocks that uncrypt has written. `sscanf`, `Split` and the calls that map memory are parameters.
-- - ErrorCode (error_code.h): the enumerations of reasons.
-- - Base: shared numbers, lists, texts and integers with their lemmas.
--
-- The modules of tests have runs on small inputs.
--
-- Bounds and fuel. The loop of `verify_file` over chunks runs on the number of signed bytes, the loop
-- of `asn1_constructed_skip_all` on one more than the bytes that are left, the loop of
-- `ApplyBSDiffPatchMem` on one more than the unpacked control bytes: each round takes at least one, so
-- that they are enough; so do the loops of `read_all`, `write_all` and `RangeSinkWrite`, on the bytes that
-- are left, and the loop of `produce_block_map` on the size of the file. New data that a failing write
-- does not take are offered again for a number of rounds that is a parameter. All other loops are
-- recursions on lists. `size_t`, `uint64_t` and `off_t` have 64
-- bits and `uint32_t` 32, with their wrap-around where a computation can reach it.
--
-- Not modelled: memory allocation, mounting and other system calls, logging and progress bars; the
-- key file's reader in verifier.cpp; of updater/blockimg.cpp the functions that only read the device
-- for a script, and what is written to the command pipe; of uncrypt/uncrypt.cpp the services around the map;
-- and the parts of the repository that are not named above, among them the user interface (ui.cpp,
-- screen_ui.cpp, minui), install.cpp, recovery.cpp, the rest of applypatch.cpp and the
-- functions in updater/install.cpp.
pub mod Base
pub mod ErrorCode
pub mod PrintSha1
pub mod Edify
pub mod Asn1
pub mod Verifier
pub mod Fuse
pub mod Freecache
pub mod Blockimg
pub mod Applypatch
pub mod RotateLogs
pub mod Uncrypt
pub mod SysUtil
