-- ===== src/Fuse/Requests.antt =====
-- fuse_sideload.cpp: the requests of the kernel, their handlers and the loop over them. The numbers of
-- the kernel's header are a parameter; so is what the host does at each fetch.
use recovery.Base.{
  ℕ, ◌+◌, ◌-◌, ◌/◌, ◌==◌, ltb, leb, min, Bool, not, ◌||◌, ◌++◌, List, [], ◌∷◌, Text, codes,
  starts_with, if◌then◌else◌,
}
use recovery.Base.Int.{ℤ, pos, negsuc}
use recovery.Fuse.Defs.{FuseData, Provider, Sha256, enoent, read_package, Reply, bytes, error}

-- What the source takes from <linux/fuse.h>.
pub record Kernel : Type 0 where
  pub kernel_version : ℕ
  pub kernel_minor_version : ℕ
  pub init_out_size : ℕ
  pub compat_22_init_out_size : ℕ
  pub root_id : ℕ

unfoldable pub package_file_id : Kernel → ℕ
package_file_id kernel = kernel.root_id + 1

unfoldable pub exit_flag_id : Kernel → ℕ
exit_flag_id kernel = kernel.root_id + 2

abbrev pub no_status : ℤ
no_status = pos 1

abbrev pub no_status_exit : ℤ
no_status_exit = pos 2

-- The request behind a `fuse_in_header`, with the fields of its operation that the source reads. A name
-- is all that the buffer holds behind the header.
pub data Operation : Type 0 where
  fuse_init : (major minor max_readahead : ℕ) → Operation
  fuse_lookup : (name : Text) → Operation
  fuse_getattr : Operation
  fuse_open : Operation
  fuse_read : (offset size : ℕ) → Operation
  fuse_flush : Operation
  fuse_release : Operation
  other : (opcode : ℕ) → Operation

pub record Request : Type 0 where
  pub unique : ℕ
  pub nodeid : ℕ
  pub operation : Operation

-- `struct fuse_attr`.
pub record Attr : Type 0 where
  pub ino : ℕ
  pub size : ℕ
  pub blocks : ℕ
  pub mode : ℕ
  pub nlink : ℕ
  pub uid : ℕ
  pub gid : ℕ
  pub blksize : ℕ

-- What stands behind the header of a reply.
pub data Body : Type 0 where
  init_out :
      (struct_size major minor max_readahead flags max_background congestion_threshold
        max_write : ℕ)
      → Body
  attr_out : (attr_valid : ℕ) → Attr → Body
  entry_out : (nodeid generation entry_valid attr_valid : ℕ) → Attr → Body
  open_out : (fh : ℕ) → Body
  read_out : List ℕ → Body

-- What is written to the kernel: a reply of `fuse_reply`, or a bare header with an error number.
pub data Message : Type 0 where
  reply : (unique : ℕ) → Body → Message
  failure : (unique : ℕ) → ℤ → Message

-- A handler's result, what it wrote, and the state that it leaves.
pub record Handled : Type 0 where
  pub status : ℤ
  pub sent : List Message
  pub after : FuseData

abbrev stop : ℤ → FuseData → Handled
stop code fd = record { status = code; sent = []; after = fd }

abbrev fuse_reply : ℤ → ℕ → Body → FuseData → Handled
fuse_reply code unique body fd = record { status = code; sent = reply unique body ∷ []; after = fd }

unfoldable pub handle_init : Kernel → ℕ → ℕ → ℕ → ℕ → FuseData → Handled
handle_init kernel major minor max_readahead unique fd =
    if not (major == kernel.kernel_version) || ltb minor 6
    then stop (negsuc 0) fd
    else fuse_reply no_status unique
        (init_out (if leb minor 22 then kernel.compat_22_init_out_size else kernel.init_out_size)
          kernel.kernel_version (min minor kernel.kernel_minor_version) max_readahead 0 32 32 4096)
        fd

unfoldable pub fill_attr : FuseData → ℕ → ℕ → ℕ → Attr
fill_attr fd nodeid size mode = record {
  ino = nodeid;
  size = size;
  blocks = if size == 0 then 0 else (size - 1) / 4096 + 1;
  mode = mode;
  nlink = 1;
  uid = fd.uid;
  gid = fd.gid;
  blksize = 4096;
}

-- S_IFDIR | 0555, S_IFREG | 0444 and S_IFREG.
abbrev pub directory_mode : ℕ
directory_mode = 16749

abbrev pub package_mode : ℕ
package_mode = 33060

abbrev pub exit_mode : ℕ
exit_mode = 32768

unfoldable pub handle_getattr : Kernel → Request → FuseData → Handled
handle_getattr kernel hdr fd =
    if hdr.nodeid == kernel.root_id
    then fuse_reply (if hdr.nodeid == exit_flag_id kernel then no_status_exit else no_status)
        hdr.unique (attr_out 10 (fill_attr fd hdr.nodeid 4096 directory_mode)) fd
    else if hdr.nodeid == package_file_id kernel
    then fuse_reply (if hdr.nodeid == exit_flag_id kernel then no_status_exit else no_status)
        hdr.unique (attr_out 10 (fill_attr fd (package_file_id kernel) fd.file_size package_mode))
        fd
    else if hdr.nodeid == exit_flag_id kernel
    then fuse_reply no_status_exit hdr.unique
        (attr_out 10 (fill_attr fd (exit_flag_id kernel) 0 exit_mode)) fd
    else stop enoent fd

-- `strncmp(literal, data, sizeof(literal)) == 0`.
unfoldable pub names : Text → Text → Bool
names literal name = starts_with (literal ++ 0 ∷ []) name

unfoldable pub handle_lookup : Kernel → Text → ℕ → FuseData → Handled
handle_lookup kernel name unique fd =
    if names (codes "package.zip") name
    then fuse_reply no_status unique
        (entry_out (package_file_id kernel) (package_file_id kernel) 10 10
          (fill_attr fd (package_file_id kernel) fd.file_size package_mode))
        fd
    else if names (codes "exit") name
    then fuse_reply no_status_exit unique
        (entry_out (exit_flag_id kernel) (exit_flag_id kernel) 10 10
          (fill_attr fd (exit_flag_id kernel) 0 exit_mode))
        fd
    else stop enoent fd

abbrev pub eperm : ℤ
eperm = negsuc 0

unfoldable pub handle_open : Kernel → Request → FuseData → Handled
handle_open kernel hdr fd =
    if hdr.nodeid == exit_flag_id kernel
    then stop eperm fd
    else if not (hdr.nodeid == package_file_id kernel)
    then stop enoent fd
    else fuse_reply no_status hdr.unique (open_out 10) fd

unfoldable pub handle_flush : FuseData → Handled
handle_flush fd = stop (pos 0) fd

unfoldable pub handle_release : FuseData → Handled
handle_release fd = stop (pos 0) fd

abbrev pub send_read : ℕ → Reply × FuseData → Handled
send_read unique (bytes data_read, fd) = fuse_reply no_status unique (read_out data_read) fd
send_read unique (error code, fd) = stop code fd

unfoldable pub handle_read :
    Kernel → Sha256 → Provider → Provider → Request → ℕ → ℕ → FuseData → Handled
handle_read kernel sha256 read_block read_block' hdr offset size fd =
    if not (hdr.nodeid == package_file_id kernel)
    then stop enoent fd
    else send_read hdr.unique (read_package sha256 read_block read_block' offset size fd)

abbrev pub enosys : ℤ
enosys = negsuc 37

-- The `switch` of `run_fuse_sideload`.
unfoldable pub handle :
    Kernel → Sha256 → Provider → Provider → Request → Operation → FuseData → Handled
handle kernel sha256 read_block read_block' hdr (fuse_init major minor max_readahead) fd =
    handle_init kernel major minor max_readahead hdr.unique fd
handle kernel sha256 read_block read_block' hdr (fuse_lookup name) fd =
    handle_lookup kernel name hdr.unique fd
handle kernel sha256 read_block read_block' hdr fuse_getattr fd = handle_getattr kernel hdr fd
handle kernel sha256 read_block read_block' hdr fuse_open fd = handle_open kernel hdr fd
handle kernel sha256 read_block read_block' hdr (fuse_read offset size) fd =
    handle_read kernel sha256 read_block read_block' hdr offset size fd
handle kernel sha256 read_block read_block' hdr fuse_flush fd = handle_flush fd
handle kernel sha256 read_block read_block' hdr fuse_release fd = handle_release fd
handle kernel sha256 read_block read_block' hdr (other opcode) fd = stop enosys fd

unfoldable pub dispatch : Kernel → Sha256 → Provider → Provider → Request → FuseData → Handled
dispatch kernel sha256 read_block read_block' hdr fd =
    handle kernel sha256 read_block read_block' hdr hdr.operation fd
