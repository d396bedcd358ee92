-- ===== src/Fuse/Session.antt =====
-- fuse_sideload.cpp: `run_fuse_sideload`, from the sizes that it accepts to the end of its loop.
use recovery.Base.{
  ℕ, ◌+◌, ◌-◌, ◌/◌, ◌%◌, ◌^◌, ◌==◌, ltb, Bool, false, ◌++◌, List, [], ◌∷◌, if◌then◌else◌, replicate,
  Option, none, some,
}
use recovery.Base.Int.{ℤ, pos, negsuc}
use recovery.Fuse.Defs.{u32, FuseData, Provider, Sha256, no_digest}
use recovery.Fuse.Requests.{Kernel, Request, Message, failure, Handled, dispatch}

-- `fd.file_blocks`, a quotient of 64 bits in a `uint32_t`.
unfoldable pub count_blocks : ℕ → ℕ → ℕ
count_blocks file_size block_size =
    if file_size == 0 then 0 else ((file_size - 1) / block_size + 1) % u32

-- The sizes that are refused before anything is mounted, and the state with which the loop starts. The
-- two blocks come from `malloc`, so their bytes are whatever the memory holds.
unfoldable pub open_session : ℕ → ℕ → ℕ → ℕ → List ℕ → List ℕ → Option FuseData
open_session file_size block_size uid gid block_data extra_block =
    if ltb block_size 1024
    then none
    else if ltb (2 ^ 22) block_size
    then none
    else if ltb (2 ^ 18) (count_blocks file_size block_size)
    then none
    else some (record {
      file_size = file_size;
      block_size = block_size;
      file_blocks = count_blocks file_size block_size;
      uid = uid;
      gid = gid;
      curr_block = u32 - 1;
      block_data = block_data;
      extra_block = extra_block;
      hashes = replicate (count_blocks file_size block_size) no_digest;
    })

-- One `read` of the loop: an error, a message that is too short, or a request, with what the host does
-- at the two fetches that it may lead to.
pub data Incoming : Type 0 where
  read_error : (no_device : Bool) → Incoming
  too_short : Incoming
  request : Request → Provider → Provider → Incoming

abbrev pub is_status : ℕ → ℤ → Bool
is_status n (pos k) = k == n
is_status n (negsuc _) = false

-- What the loop adds to a handler's own messages.
unfoldable pub finish : Request → Handled → List Message
finish hdr handled =
    if is_status 2 handled.status
    then handled.sent
    else if is_status 1 handled.status
    then handled.sent
    else handled.sent ++ failure hdr.unique handled.status ∷ []

-- The loop of `run_fuse_sideload`, to the end of what comes in: the messages that it sends.
unfoldable pub serve : Kernel → Sha256 → List Incoming → FuseData → List Message
serve kernel sha256 [] fd = []
serve kernel sha256 (read_error no_device ∷ incoming) fd =
    let rest = serve kernel sha256 incoming fd in if no_device then [] else rest
serve kernel sha256 (too_short ∷ incoming) fd = serve kernel sha256 incoming fd
serve kernel sha256 (request hdr read_block read_block' ∷ incoming) fd =
    let handled = dispatch kernel sha256 read_block read_block' hdr fd in
    let rest = serve kernel sha256 incoming handled.after in
    if is_status 2 handled.status then finish hdr handled else finish hdr handled ++ rest
