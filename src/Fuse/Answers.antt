-- ===== src/Fuse/Answers.antt =====
-- fuse_sideload.cpp: the session with the kernel over a host that sends the file as it is.
use recovery.Base.{
  ℕ, ◌≤◌, ◌≡◌, true, false, ◌++◌, List, [], ◌∷◌, if◌then◌else◌, Bool-cases, inl, inr,
}
use recovery.Fuse.Defs.{FuseData, Sha256}
use recovery.Fuse.Content.{sends, Holds}
use recovery.Fuse.Requests.{Kernel, Request, Message, Handled, dispatch}
use recovery.Fuse.Session.{Incoming, read_error, too_short, request, finish, serve, is_status}
use recovery.Fuse.Handlers.{unique_of, is_exit, RightRead, InBounds, Right, handle-Right}

module _ (kernel : Kernel) (sha256 : Sha256) (file : List ℕ) where
  -- The requests of a session that are answered: all, to the first that ends it.
  abbrev pub handled : List Incoming → List Request
  handled [] = []
  handled (read_error no_device ∷ incoming) = if no_device then [] else handled incoming
  handled (too_short ∷ incoming) = handled incoming
  handled (request hdr _ _ ∷ incoming) =
      hdr ∷ (if is_exit kernel hdr hdr.operation then [] else handled incoming)

  -- One message to each request, and each read of the package answered with its bytes.
  pub data Answers : List Request → List Message → Type 0 where
    none_left : Answers [] []
    one_more :
        {hdr : Request} {message : Message} {requests : List Request} {messages : List Message}
        → unique_of message ≡ hdr.unique
        → RightRead kernel sha256 file hdr hdr.operation message
        → Answers requests messages
        → Answers (hdr ∷ requests) (message ∷ messages)

  -- The host sends what the file holds, and the kernel reads within bounds.
  abbrev pub Proper : ℕ → List Incoming → Type 0
  Proper bs [] = Unit
  Proper bs (read_error _ ∷ incoming) = Proper bs incoming
  Proper bs (too_short ∷ incoming) = Proper bs incoming
  Proper bs (request hdr read_block read_block' ∷ incoming) =
      (read_block ≡ sends file bs)
      × (read_block' ≡ sends file bs)
      × InBounds kernel sha256 file bs hdr.operation
      × Proper bs incoming

  -- A session over a host that sends the file as it is, whose reads of the package ask for at most a block
  -- each and stay below 4 GiB, from a state that belongs to the file and has blocks of at least 1024
  -- bytes: up to and with the first request that ends it, each request is answered by one message that
  -- carries the request's number, and each read of the package by exactly the file's bytes there,
  -- padded with zeros. Nothing else is sent.
  pub serve-Answers :
      (incoming : List Incoming) (fd : FuseData)
      → Holds sha256 file fd
      → 1024 ≤ fd.block_size
      → Proper fd.block_size incoming
      → Answers (handled incoming) (serve kernel sha256 incoming fd)
  unfolding serve dispatch
  serve-Answers [] fd h big proper = none_left
  serve-Answers (read_error true ∷ incoming) fd h big proper = none_left
  serve-Answers (read_error false ∷ incoming) fd h big proper =
      serve-Answers incoming fd h big proper
  serve-Answers (too_short ∷ incoming) fd h big proper = serve-Answers incoming fd h big proper
  serve-Answers (request hdr read_block read_block' ∷ incoming) fd h big (e, e', within, proper) =
      let r = handle-Right kernel sha256 file hdr hdr.operation fd h big within in
      rw (e, e')
        (go _ r (λ p. serve-Answers incoming _ r.holds (rw r.same_block_size big) p)
          (rw r.same_block_size proper))
    where
      go :
          (after : Handled) (r : Right kernel sha256 file hdr hdr.operation fd.block_size after)
          → (Proper after.after.block_size incoming
              → Answers (handled incoming) (serve kernel sha256 incoming after.after))
          → Proper after.after.block_size incoming
          → Answers (hdr ∷ (if is_exit kernel hdr hdr.operation then [] else handled incoming)) (
              if is_status 2 after.status
              then finish hdr after
              else finish hdr after ++ serve kernel sha256 incoming after.after)
      go after r ih p = elim (Bool-cases (is_exit kernel hdr hdr.operation)) [
        | inl exit ↦ rw (r.exits, exit, r.finished) (one_more r.same_unique r.right_read none_left)
        | inr stays ↦ rw (r.exits, stays, r.finished) (one_more r.same_unique r.right_read (ih p))
      ]
