-- ===== src/Server/Transfers/Window.antt =====
-- One chunk in a transfer session: its arrival, its acknowledgement, and what is asked for next
-- (src/chatroom/TransferManager.cpp).
use chat_serve.Base.{
  ℕ, ◌+◌, ◌-◌, ◌%◌, ◌<◌, min, ◌≡◌, refl, ap, sym, true, false, not, ◌||◌, List, [], ◌∷◌, Option,
  none, some, leb, ◌===◌, nat_eq, eq_refl, Bool-cases, inl, inr, arith,
}
use chat_serve.Text.{Text}
use chat_serve.Server.Numbers.{word_limit}
use chat_serve.Server.State.{Session, ◌is◌, TransferSession}
use chat_serve.Server.Transfers.{
  NextRequest, ChunkResult, chunk_bytes, chunk_size_for_offset, has_window_space, is_complete,
  try_send_next_request, take_chunk, has_offset,
}
use chat_serve.Server.Cancel.{AckResult, take_ack, remove_all}

-- A request goes to this session.
abbrev pub IsTo : Session → Option NextRequest → Type 0
IsTo u none = Unit
IsTo u (some r) = r.uploader ≡ u

module _ (up down : Session) (file_id : Text) (filesize : ℕ) where
  -- The session of this file between the two, with the bytes received and the offsets that are not
  -- acknowledged yet
  pub record Is (ts : TransferSession) (pending : List ℕ) (received : ℕ) : Type 0 where
    pub uploader_is : ts.uploader ≡ up
    pub downloader_is : ts.downloader ≡ down
    pub file_is : ts.file_id ≡ file_id
    pub filesize_is : ts.filesize ≡ filesize
    pub received_is : ts.total_received ≡ received
    pub pending_is : ts.pending_acks ≡ pending

  pub try_send-Is :
      (ts : TransferSession) {pending : List ℕ} {received : ℕ}
      → Is ts pending received
      → Is (try_send_next_request ts).0 pending received × IsTo up (try_send_next_request ts).1
  unfolding try_send_next_request
  try_send-Is ts h =
      elim (Bool-cases (leb ts.filesize ts.next_req_offset || not (has_window_space ts))) [
        | inl stop ↦ rw stop (h, tt)
        | inr go ↦ rw go (
          record {
            uploader_is = h.uploader_is;
            downloader_is = h.downloader_is;
            file_is = h.file_is;
            filesize_is = h.filesize_is;
            received_is = h.received_is;
            pending_is = h.pending_is;
          },
          h.uploader_is,
        )
      ]

  -- A chunk that was not received and has the size that belongs to its offset is taken.
  pub take_chunk-Is :
      (ts : TransferSession) (sid o size : ℕ)
      → Is ts [] o
      → o < filesize
      → size ≡ min chunk_bytes (filesize - o)
      → filesize < word_limit
      → (ts' : TransferSession) × (result : ChunkResult) × (take_chunk up sid o size ts
          ≡ some (ts', result))
        × Is ts' (o ∷ []) (o + size)
        × (result.session_id ≡ sid)
        × (result.file_id ≡ file_id)
        × (result.offset ≡ o)
        × (result.size ≡ size)
        × (result.downloader ≡ down)
        × IsTo up result.next
  unfolding take_chunk chunk_size_for_offset
  take_chunk-Is ts sid o size h k e l =
      let ts0 : TransferSession = record ts {
        pending_acks = o ∷ ts.pending_acks;
        total_received = (ts.total_received + size) % word_limit;
      } in
      let h0 : Is ts0 (o ∷ []) (o + size) = record {
        uploader_is = h.uploader_is;
        downloader_is = h.downloader_is;
        file_is = h.file_is;
        filesize_is = h.filesize_is;
        received_is = omega (arith, h.received_is);
        pending_is = ap (o ∷◌) h.pending_is;
      } in
      let (h1, to) = try_send-Is ts0 h0 in
      let result : ChunkResult = record {
        session_id = sid;
        file_id = ts.file_id;
        offset = o;
        size = size;
        downloader = ts.downloader;
        next = (try_send_next_request ts0).1;
      } in
      let own : (ts.uploader is up) ≡ true = rw h.uploader_is (eq_refl up.address) in
      let inside : leb ts.filesize o ≡ false = ground (arith, h.filesize_is, k) in
      let sized : (size === chunk_size_for_offset ts o) ≡ true = ground (arith, h.filesize_is, e) in
      let fresh : has_offset o ts.pending_acks ≡ false = rw h.pending_is refl in
      (
        (try_send_next_request ts0).0,
        result,
        rw (own, inside, sized, fresh) refl,
        h1,
        refl,
        h.file_is,
        refl,
        refl,
        h.downloader_is,
        to,
      )

  -- An acknowledgement of the one chunk that is open ends the session if the whole file was
  -- received.
  pub take_ack-Is :
      (ts : TransferSession) (o received : ℕ)
      → Is ts (o ∷ []) received
      → (ts' : TransferSession) × (result : AckResult) × (take_ack down o ts ≡ some (ts', result))
        × Is ts' [] received
        × (result.downloader_done ≡ leb filesize received)
        × (result.file_id ≡ file_id)
        × (result.uploader ≡ up)
        × IsTo up result.next
  unfolding take_ack is_complete
  take_ack-Is ts o received h =
      let acked : TransferSession = record ts {
        pending_acks = remove_all (λ p. p === o) ts.pending_acks;
      } in
      let one : remove_all (λ p. p === o) ts.pending_acks ≡ [] =
        rw h.pending_is (rw (eq_refl o) refl) in
      let h0 : Is acked [] received = record {
        uploader_is = h.uploader_is;
        downloader_is = h.downloader_is;
        file_is = h.file_is;
        filesize_is = h.filesize_is;
        received_is = h.received_is;
        pending_is = one;
      } in
      let own : (ts.downloader is down) ≡ true = rw h.downloader_is (eq_refl down.address) in
      let open' : has_offset o ts.pending_acks ≡ true = rw h.pending_is (rw (eq_refl o) refl) in
      let whole : is_complete acked ≡ leb filesize received =
        rw (one, is_complete, h.filesize_is, h.received_is) refl in
      elim (Bool-cases (leb filesize received)) [
        | inl end ↦ (
          acked,
          record {
            downloader_done = true;
            file_id = ts.file_id;
            next = none;
            uploader = ts.uploader;
          },
          rw (own, open', whole, end) refl,
          h0,
          sym end,
          h.file_is,
          h.uploader_is,
          tt,
        )
        | inr more ↦
            let (h1, to) = try_send-Is acked h0 in
            (
              (try_send_next_request acked).0,
              record {
                downloader_done = false;
                file_id = ts.file_id;
                next = (try_send_next_request acked).1;
                uploader = ts.uploader;
              },
              rw (own, open', whole, more) refl,
              h1,
              sym more,
              h.file_is,
              h.uploader_is,
              to,
            )
      ]
