-- ===== src/Fuse/Handlers.antt =====
-- fuse_sideload.cpp: each request of the kernel over a host that sends the file as it is.
use recovery.Base.{
  ℕ, ◌+◌, ◌*◌, ◌≤◌, ◌≡◌, ◌==◌, ltb, Bool, true, false, not, ◌||◌, List, [], ◌∷◌, Text, codes, refl,
  Bool-cases, inl, inr, ◌&&◌,
}
use recovery.Fuse.Defs.{u32, FuseData, Sha256}
use recovery.Fuse.Content.{sends, Holds}
use recovery.Fuse.Read.{IsReply, read_package-Answered}
use recovery.Fuse.Requests.{
  Kernel, Request, Operation, Message, Handled, reply, failure, read_out, package_file_id,
  exit_flag_id, names, handle, handle_init, handle_lookup, handle_getattr, handle_open, handle_read,
  handle_flush, handle_release, fuse_init, fuse_lookup, fuse_getattr, fuse_open, fuse_read,
  fuse_flush, fuse_release, other,
}
use recovery.Fuse.Session.{finish, is_status}

abbrev pub unique_of : Message → ℕ
unique_of (reply unique _) = unique
unique_of (failure unique _) = unique

-- The requests that end the session.
abbrev pub is_exit : Kernel → Request → Operation → Bool
is_exit kernel hdr (fuse_lookup name) =
    not (names (codes "package.zip") name) && names (codes "exit") name
is_exit kernel hdr fuse_getattr = hdr.nodeid == exit_flag_id kernel
is_exit kernel hdr _ = false

module _ (kernel : Kernel) (sha256 : Sha256) (file : List ℕ) where
  abbrev pub RightAnswer : Bool → Request → ℕ → ℕ → Message → Type 0
  RightAnswer false hdr offset size m = Unit
  RightAnswer true hdr offset size m =
      (sent : List ℕ) × (m ≡ reply hdr.unique (read_out sent))
      × IsReply sha256 file offset size sent

  -- A read of the package is answered with its bytes.
  abbrev pub RightRead : Request → Operation → Message → Type 0
  RightRead hdr (fuse_read offset size) m =
      RightAnswer (hdr.nodeid == package_file_id kernel) hdr offset size m
  RightRead hdr _ m = Unit

  -- Reads that the kernel makes of a package well below 4 GiB.
  abbrev pub InBounds : ℕ → Operation → Type 0
  InBounds bs (fuse_read offset size) = (size ≤ bs) × (offset + 2 * bs ≤ u32)
  InBounds bs _ = Unit

  -- What holds of a handled request.
  pub record Right (hdr : Request) (op : Operation) (bs : ℕ) (r : Handled) : Type 0 where
    pub message : Message
    pub finished : finish hdr r ≡ message ∷ []
    pub same_unique : unique_of message ≡ hdr.unique
    pub right_read : RightRead hdr op message
    pub exits : is_status 2 r.status ≡ is_exit kernel hdr op
    pub holds : Holds sha256 file r.after
    pub same_block_size : r.after.block_size ≡ bs

  -- A handler that sends one reply.
  sent-Right :
      (hdr : Request) (op : Operation) (bs : ℕ) (r : Handled) (message : Message)
      → finish hdr r ≡ message ∷ []
      → unique_of message ≡ hdr.unique
      → RightRead hdr op message
      → is_status 2 r.status ≡ is_exit kernel hdr op
      → Holds sha256 file r.after
      → r.after.block_size ≡ bs
      → Right hdr op bs r
  sent-Right hdr op bs r message finished same right exits holds size = record {
    message = message;
    finished = finished;
    same_unique = same;
    right_read = right;
    exits = exits;
    holds = holds;
    same_block_size = size;
  }

  handle_init-Right :
      (hdr : Request) (major minor readahead : ℕ) (fd : FuseData)
      → Holds sha256 file fd
      → Right hdr
          (fuse_init major minor readahead)
          fd.block_size
          (handle_init kernel major minor readahead hdr.unique fd)
  unfolding handle_init finish
  handle_init-Right hdr major minor readahead fd h =
      elim (Bool-cases (not (major == kernel.kernel_version) || ltb minor 6)) [
        | inl refused ↦ rw refused (sent-Right hdr _ _ _ _ refl refl tt refl h refl)
        | inr accepted ↦ rw accepted (sent-Right hdr _ _ _ _ refl refl tt refl h refl)
      ]

  handle_lookup-Right :
      (hdr : Request) (name : Text) (fd : FuseData)
      → Holds sha256 file fd
      → Right hdr (fuse_lookup name) fd.block_size (handle_lookup kernel name hdr.unique fd)
  unfolding handle_lookup finish
  handle_lookup-Right hdr name fd h = elim (Bool-cases (names (codes "package.zip") name)) [
    | inl found ↦ rw found (sent-Right hdr _ _ _ _ refl refl tt (rw found refl) h refl)
    | inr not_it ↦ elim (Bool-cases (names (codes "exit") name)) [
      | inl exit ↦
          rw (not_it, exit) (sent-Right hdr _ _ _ _ refl refl tt (rw (not_it, exit) refl) h refl)
      | inr neither ↦
          rw (not_it, neither)
            (sent-Right hdr _ _ _ _ refl refl tt (rw (not_it, neither) refl) h refl)
    ]
  ]

  handle_getattr-Right :
      (hdr : Request) (fd : FuseData)
      → Holds sha256 file fd
      → Right hdr fuse_getattr fd.block_size (handle_getattr kernel hdr fd)
  unfolding handle_getattr finish
  handle_getattr-Right hdr fd h = elim (Bool-cases (hdr.nodeid == exit_flag_id kernel)) [
    | inl exit ↦ elim (Bool-cases (hdr.nodeid == kernel.root_id)) [
      | inl root ↦ rw (root, exit) (sent-Right hdr _ _ _ _ refl refl tt (rw exit refl) h refl)
      | inr not_it ↦ elim (Bool-cases (hdr.nodeid == package_file_id kernel)) [
        | inl found ↦
            rw (not_it, found, exit) (sent-Right hdr _ _ _ _ refl refl tt (rw exit refl) h refl)
        | inr neither ↦
            rw (not_it, neither, exit) (sent-Right hdr _ _ _ _ refl refl tt (rw exit refl) h refl)
      ]
    ]
    | inr stays ↦ elim (Bool-cases (hdr.nodeid == kernel.root_id)) [
      | inl root ↦ rw (root, stays) (sent-Right hdr _ _ _ _ refl refl tt (rw stays refl) h refl)
      | inr not_it ↦ elim (Bool-cases (hdr.nodeid == package_file_id kernel)) [
        | inl found ↦
            rw (not_it, found, stays) (sent-Right hdr _ _ _ _ refl refl tt (rw stays refl) h refl)
        | inr neither ↦
            rw (not_it, neither, stays) (sent-Right hdr _ _ _ _ refl refl tt (rw stays refl) h refl)
      ]
    ]
  ]

  handle_open-Right :
      (hdr : Request) (fd : FuseData)
      → Holds sha256 file fd
      → Right hdr fuse_open fd.block_size (handle_open kernel hdr fd)
  unfolding handle_open finish
  handle_open-Right hdr fd h = elim (Bool-cases (hdr.nodeid == exit_flag_id kernel)) [
    | inl exit ↦ rw exit (sent-Right hdr _ _ _ _ refl refl tt refl h refl)
    | inr not_it ↦ elim (Bool-cases (not (hdr.nodeid == package_file_id kernel))) [
      | inl unknown ↦ rw (not_it, unknown) (sent-Right hdr _ _ _ _ refl refl tt refl h refl)
      | inr found ↦ rw (not_it, found) (sent-Right hdr _ _ _ _ refl refl tt refl h refl)
    ]
  ]

  handle_read-Right :
      (hdr : Request) (offset size : ℕ) (fd : FuseData)
      → Holds sha256 file fd
      → 1024 ≤ fd.block_size
      → InBounds fd.block_size (fuse_read offset size)
      → Right hdr (fuse_read offset size) fd.block_size (
          handle_read kernel sha256
            (sends file fd.block_size)
            (sends file fd.block_size)
            hdr
            offset
            size
            fd)
  unfolding handle_read finish
  handle_read-Right hdr offset size fd h big within =
      let r = read_package-Answered sha256 file offset size fd h big within.0 within.1 in
      elim (Bool-cases (hdr.nodeid == package_file_id kernel)) [
        | inr unknown ↦ rw unknown (sent-Right hdr _ _ _ _ refl refl (rw unknown tt) refl h refl)
        | inl found ↦
            rw (found, r.sent)
              (sent-Right hdr _ _ _ _ refl refl (rw found (r.reply, refl, r.right)) refl r.holds
                r.same_block_size)
      ]

  pub handle-Right :
      (hdr : Request) (op : Operation) (fd : FuseData)
      → Holds sha256 file fd
      → 1024 ≤ fd.block_size
      → InBounds fd.block_size op
      → Right hdr op fd.block_size
          (handle kernel sha256 (sends file fd.block_size) (sends file fd.block_size) hdr op fd)
  unfolding handle handle_flush handle_release finish
  handle-Right hdr (fuse_init major minor readahead) fd h big within =
      handle_init-Right hdr major minor readahead fd h
  handle-Right hdr (fuse_lookup name) fd h big within = handle_lookup-Right hdr name fd h
  handle-Right hdr fuse_getattr fd h big within = handle_getattr-Right hdr fd h
  handle-Right hdr fuse_open fd h big within = handle_open-Right hdr fd h
  handle-Right hdr (fuse_read offset size) fd h big within =
      handle_read-Right hdr offset size fd h big within
  handle-Right hdr fuse_flush fd h big within = sent-Right hdr _ _ _ _ refl refl tt refl h refl
  handle-Right hdr fuse_release fd h big within = sent-Right hdr _ _ _ _ refl refl tt refl h refl
  handle-Right hdr (other opcode) fd h big within = sent-Right hdr _ _ _ _ refl refl tt refl h refl
