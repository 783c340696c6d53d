-- ===== src/Transfer/Exchange.antt =====
-- A chunk on its way: `handleDWREQ`, its reader, `handleDWDATA` and `handleBinary`.
use chat_serve.Base.{
  ℕ, ◌+◌, ◌^◌, ◌<◌, ◌≡◌, refl, false, [], ◌∷◌, ◌++◌, none, some, ltb, arith, Option-cases,
  Bool-cases, inl, inr, list_eq, nat_eq, lookup, insert, erase, lookup-insert_self,
  lookup-erase_self, erase-insert_self, nat, length, take, drop, min, take_clipped, add_num-nat,
  take-drop-cons,
}
use chat_serve.Text.{Text, lit}
use chat_serve.Text.Number.{show, show_num, parse_int-show}
use chat_serve.Transfer.Frame.{
  Bytes, build_binary_frame, frame_session, frame_offset, frame_session-build, frame_offset-build,
  drop-build, length-build,
}
use chat_serve.Transfer.Keys.{key_of}
use chat_serve.Transfer.State.{
  UploadSession, DownloadSession, PendingChunk, Transfer, Reading, send_command, send_binary,
  read_as_array_buffer,
}
use chat_serve.Transfer.Upload.{blob_slice, handle_dwreq, reader_onload}
use chat_serve.Transfer.Receive.{
  add_chunk, accept_chunk, accept_frame, handle_dwdata, handle_binary,
}

not_short : {n : ℕ} (m : ℕ) → n ≡ 20 + m → ltb n 20 ≡ false
not_short m h = ground arith

-- What `handleBinary` does with a frame that its peer built.
handle_binary-build :
    (t : Transfer) (s o : ℕ) (buffer : Bytes)
    → s < 2 ^ 64
    → o < 2 ^ 64
    → handle_binary t (build_binary_frame (nat s) (nat o) buffer)
      ≡ accept_frame t s o (build_binary_frame (nat s) (nat o) buffer)
unfolding handle_binary
handle_binary-build t s o buffer h k =
    rw (frame_session-build s o buffer h, frame_offset-build s o buffer k)
      (rw (not_short (length buffer) (length-build s o buffer)))

-- The entry that `handleDWDATA` makes for a chunk.
abbrev pub announcement : Text → ℕ → ℕ → PendingChunk
announcement file_id s o = record { file_id = file_id; session_id = show s; offset = nat o }

abbrev pub ack : ℕ → ℕ → Text
ack s o = lit "DWACK|" ++ (show s ++ (lit "|" ++ show o))

-- A frame that was built for a chunk which is announced, in a session that is there, is filed: its
-- bytes stand under their offset in the session and are counted, the announcement is gone, and the
-- chunk is acknowledged. Session id and offset are below 2 ^ 64.
pub accept_announced :
    (t : Transfer) (file_id : Text) (s o : ℕ) (buffer : Bytes) (session : DownloadSession)
    → s < 2 ^ 64
    → o < 2 ^ 64
    → lookup (key_of s o) t.pending_chunks ≡ some (announcement file_id s o)
    → lookup file_id t.download_sessions ≡ some session
    → handle_binary t (build_binary_frame (nat s) (nat o) buffer) ≡ (
      record t {
        pending_chunks = erase (key_of s o) t.pending_chunks;
        download_sessions = insert file_id (add_chunk session o buffer) t.download_sessions;
      },
      send_command (ack s o) ∷ [],
    )
unfolding accept_frame accept_chunk
accept_announced t file_id s o buffer session h k p q =
    rw
      (
        handle_binary-build t s o buffer h k,
        p,
        accept_frame,
        q,
        accept_chunk,
        drop-build s o buffer,
      )
      refl

-- The reader hands the chunk on in a frame, unless all uploads are cancelled.
onload_sends :
    (t : Transfer) (r : Reading) (s o : ℕ)
    → t.cancel_upload ≡ false
    → r.session_id ≡ show s
    → r.offset ≡ nat o
    → reader_onload t r ≡ (t, send_binary (build_binary_frame (nat s) (nat o) r.chunk) ∷ [])
unfolding reader_onload
onload_sends t r s o c h k = rw (c, h, k, parse_int-show s)

-- `slice(o, o + n)`, also where it runs past the end of the file
blob_slice_lem :
    (bytes : Bytes) (o n : ℕ) → blob_slice bytes (nat o) (nat (o + n)) ≡ take n (drop o bytes)
unfolding blob_slice
blob_slice_lem bytes o n = take_clipped bytes o n (min o (length bytes)) _ refl refl

abbrev reading : UploadSession → ℕ → ℕ → ℕ → Reading
reading session s o n = record {
  session_id = show s;
  offset = nat o;
  name = session.name;
  chunk = take n (drop o session.file.bytes);
}

-- A request within the file starts a reader on the bytes that it asks for.
dwreq_reads :
    (t : Transfer) (file_id : Text) (session : UploadSession) (s o n : ℕ)
    → t.cancel_upload ≡ false
    → lookup file_id t.upload_sessions ≡ some session
    → o < length session.file.bytes
    → 0 < n
    → handle_dwreq t (show s) file_id (nat o) (nat n)
      ≡ (t, read_as_array_buffer (reading session s o n) ∷ [])
unfolding handle_dwreq
dwreq_reads t file_id session s o n c e h k =
    let (b, rest, same) = take-drop-cons session.file.bytes o n h k in
    rw (e, handle_dwreq, c, add_num-nat o n, blob_slice_lem session.file.bytes o n, same)

-- The chunk of `n` bytes at `o` goes from the request to the sender, over the reader and the frame
-- that it sends, into the receiver's session, and is acknowledged.
abbrev pub Relays :
    (sender receiver : Transfer) (file_id : Text) (up : UploadSession) (down : DownloadSession)
    (s o n : ℕ)
    → Type 0
Relays sender receiver file_id up down s o n =
    (r : Reading) × (frame : Bytes) × (handle_dwreq sender (show s) file_id (nat o) (nat n)
      ≡ (sender, read_as_array_buffer r ∷ []))
    × (reader_onload sender r ≡ (sender, send_binary frame ∷ []))
    × (handle_binary (handle_dwdata receiver (show s) file_id (nat o)) frame ≡ (
      record receiver {
        pending_chunks = erase (key_of s o) receiver.pending_chunks;
        download_sessions =
            insert file_id (add_chunk down o (take n (drop o up.file.bytes)))
              receiver.download_sessions;
      },
      send_command (ack s o) ∷ [],
    ))

-- A chunk that the receiver is told of and that is asked of the sender, both having the session,
-- is read from the sender's file, sent in a frame, and arrives whole: the receiver files exactly
-- those bytes under their offset, counts them, forgets the announcement and acknowledges the
-- chunk. The sender has not cancelled an upload, the chunk begins within the file and is not
-- empty, and session id and offset are below 2 ^ 53, up to where a double is exact.
pub relay :
    (sender receiver : Transfer) (file_id : Text) (up : UploadSession) (down : DownloadSession)
    (s o n : ℕ)
    → sender.cancel_upload ≡ false
    → lookup file_id sender.upload_sessions ≡ some up
    → lookup file_id receiver.download_sessions ≡ some down
    → s < 2 ^ 53
    → o < 2 ^ 53
    → o < length up.file.bytes
    → 0 < n
    → Relays sender receiver file_id up down s o n
unfolding handle_dwdata show_num
relay sender receiver file_id up down s o n c p q hs ho h k = (
  reading up s o n,
  build_binary_frame (nat s) (nat o) (take n (drop o up.file.bytes)),
  dwreq_reads sender file_id up s o n c p h k,
  onload_sends sender (reading up s o n) s o c refl refl,
  rw (← erase-insert_self (key_of s o) (announcement file_id s o) receiver.pending_chunks) (
      accept_announced (handle_dwdata receiver (show s) file_id (nat o)) file_id s o
        (take n (drop o up.file.bytes)) down (omega arith) (omega arith)
        (lookup-insert_self (key_of s o) (announcement file_id s o) receiver.pending_chunks) q),
)

accept_chunk-pending :
    (t : Transfer) (meta : PendingChunk) (o : ℕ) (frame : Bytes)
    → (accept_chunk t meta o frame).0.pending_chunks ≡ t.pending_chunks
unfolding accept_chunk
accept_chunk-pending t meta o frame = ground arith

-- A frame that nothing announced is dropped.
pub accept_frame_unknown :
    (t : Transfer) (s o : ℕ) (frame : Bytes)
    → lookup (key_of s o) t.pending_chunks ≡ none
    → accept_frame t s o frame ≡ (t, [])
unfolding accept_frame
accept_frame_unknown t s o frame e = rw (e, accept_frame)

accept_frame_forgets :
    (t : Transfer) (s o : ℕ) (frame : Bytes)
    → lookup (key_of s o) (accept_frame t s o frame).0.pending_chunks ≡ none
unfolding accept_frame
accept_frame_forgets t s o frame = elim (Option-cases (lookup (key_of s o) t.pending_chunks)) [
  | inl missing ↦ rw (accept_frame_unknown t s o frame missing) missing
  | inr (meta, found) ↦
      rw (found, accept_frame, accept_chunk-pending)
        (lookup-erase_self (key_of s o) t.pending_chunks)
]

-- A frame that comes a second time changes nothing and is not acknowledged again, whatever it holds.
pub handle_binary_twice :
    (t : Transfer) (frame : Bytes)
    → handle_binary (handle_binary t frame).0 frame ≡ ((handle_binary t frame).0, [])
unfolding handle_binary
handle_binary_twice t frame = elim (Bool-cases (ltb (length frame) 20)) [
  | inl short ↦ rw short
  | inr long ↦ rw long (
      accept_frame_unknown _ (frame_session frame) (frame_offset frame) frame
        (accept_frame_forgets t (frame_session frame) (frame_offset frame) frame))
]
