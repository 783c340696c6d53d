-- ===== src/Server/Transfers/Asking.antt =====
-- What a transfer session asks of the uploader on a chunk and on its acknowledgement
-- (src/chatroom/TransferManager.cpp).
use chat_serve.Base.{
  ℕ, zero, suc, ◌+◌, ◌-◌, ◌*◌, ◌%◌, ◌≤◌, ◌<◌, min, ◌≡◌, refl, ap, sym, subst, true, false, not,
  ◌||◌, [], ◌∷◌, Option, none, some, leb, ◌===◌, nat_eq, eq_refl, length, arith,
}
use chat_serve.Server.Numbers.{word_limit}
use chat_serve.Server.State.{Session, ◌is◌, TransferSession}
use chat_serve.Server.Transfers.{
  chunk_bytes, window_size, chunk_size_for_offset, has_window_space, is_complete, has_offset,
  try_send_next_request, initial_requests, gather, take_chunk, NextRequest, ChunkResult,
}
use chat_serve.Server.Cancel.{AckResult, take_ack, remove_all}

-- A whole chunk arrives, and is acknowledged.
pub after_round : Session → Session → ℕ → ℕ → TransferSession → TransferSession
after_round up down sid o ts = elim (take_chunk up sid o chunk_bytes ts) [
  | none ↦ ts
  | some (ts1, _) ↦ elim (take_ack down o ts1) [ none ↦ ts1 | some (ts2, _) ↦ ts2 ]
]

-- All bytes up to an offset are received and acknowledged, and those up to another are asked for.
pub record Stands (up down : Session) (filesize received asked : ℕ) (ts : TransferSession)
    : Type 0 where
  pub uploader_is : (ts.uploader is up) ≡ true
  pub downloader_is : (ts.downloader is down) ≡ true
  pub filesize_is : ts.filesize ≡ filesize
  pub received_is : ts.total_received ≡ received
  pub asked_is : ts.next_req_offset ≡ asked
  pub pending_is : ts.pending_acks ≡ []

-- A request for a whole chunk
asks :
    (ts : TransferSession)
    → ts.next_req_offset + chunk_bytes ≤ ts.filesize
    → length ts.pending_acks < window_size
    → (r : NextRequest) × (try_send_next_request ts
        ≡ (record ts { next_req_offset = ts.next_req_offset + chunk_bytes }, some r))
unfolding try_send_next_request has_window_space chunk_size_for_offset
asks ts h k =
    let go : (leb ts.filesize ts.next_req_offset || not (has_window_space ts)) ≡ false =
      ground arith in
    let whole : min chunk_bytes (ts.filesize - ts.next_req_offset) ≡ chunk_bytes = omega arith in
    (
      record {
        session_id = ts.session_id;
        file_id = ts.file_id;
        offset = ts.next_req_offset;
        size = chunk_bytes;
        uploader = ts.uploader;
      },
      rw (go, whole) refl,
    )

module _ (up down : Session) (sid filesize : ℕ) (l : filesize < word_limit) where
  asked_more :
      (received asked : ℕ) (ts : TransferSession)
      → Stands up down filesize received asked ts
      → Stands up down filesize received
          (asked + chunk_bytes)
          (record ts { next_req_offset = ts.next_req_offset + chunk_bytes })
  asked_more received asked ts h = record {
    uploader_is = h.uploader_is;
    downloader_is = h.downloader_is;
    filesize_is = h.filesize_is;
    received_is = h.received_is;
    asked_is = ap (λ n. n + chunk_bytes) h.asked_is;
    pending_is = h.pending_is;
  }

  pub initial_asked :
      (j received asked : ℕ) (ts : TransferSession)
      → Stands up down filesize received asked ts
      → asked + chunk_bytes * j ≤ filesize
      → Stands up down filesize received (asked + chunk_bytes * j) (initial_requests j ts).0
  unfolding initial_requests
  initial_asked zero received asked ts h k =
      subst (λ n. Stands up down filesize received n ts) (omega arith) h
  initial_asked (suc j) received asked ts h k =
      let few : length ts.pending_acks < window_size = rw h.pending_is (omega arith) in
      let (r, e) = asks ts (omega (arith, h.asked_is, h.filesize_is)) few in
      let same : asked + chunk_bytes + chunk_bytes * j ≡ asked + chunk_bytes * suc j =
        omega arith in
      let ih =
        initial_asked j received (asked + chunk_bytes) _ (asked_more received asked ts h)
          (omega arith) in
      subst (λ n. Stands up down filesize received n (initial_requests (suc j) ts).0) same
        (subst
          (λ p.
            Stands up down filesize received (asked + chunk_bytes + chunk_bytes * j)
              (gather (initial_requests j) p).0)
          (sym e) ih)

  chunk_asked :
      (received asked : ℕ) (ts : TransferSession)
      → Stands up down filesize received asked ts
      → received + chunk_bytes < filesize
      → asked + chunk_bytes ≤ filesize
      → (result : ChunkResult) × (take_chunk up sid received chunk_bytes ts
          ≡ some (
            record ts {
              next_req_offset = ts.next_req_offset + chunk_bytes;
              pending_acks = received ∷ ts.pending_acks;
              total_received = (ts.total_received + chunk_bytes) % word_limit;
            },
            result,
          ))
  unfolding take_chunk chunk_size_for_offset
  chunk_asked received asked ts h k m =
      let inside : leb ts.filesize received ≡ false = ground (arith, h.filesize_is) in
      let sized : (chunk_bytes === chunk_size_for_offset ts received) ≡ true =
        ground (arith, h.filesize_is) in
      let fresh : has_offset received ts.pending_acks ≡ false = rw h.pending_is refl in
      let ts0 : TransferSession = record ts {
        pending_acks = received ∷ ts.pending_acks;
        total_received = (ts.total_received + chunk_bytes) % word_limit;
      } in
      let few : length ts0.pending_acks < window_size = rw h.pending_is (omega arith) in
      let (r, e) = asks ts0 (omega (arith, h.asked_is, h.filesize_is)) few in
      let result : Option NextRequest → ChunkResult = λ next. record {
        session_id = sid;
        file_id = ts.file_id;
        offset = received;
        size = chunk_bytes;
        downloader = ts.downloader;
        next = next;
      } in
      (
        result (some r),
        rw (h.uploader_is, inside, sized, fresh) (ap (λ p. some (p.0, result p.1)) e),
      )

  ack_asked :
      (o received asked : ℕ) (ts : TransferSession)
      → Stands up down filesize received asked (record ts { pending_acks = [] })
      → ts.pending_acks ≡ o ∷ []
      → received < filesize
      → asked + chunk_bytes ≤ filesize
      → (result : AckResult) × (take_ack down o ts
          ≡ some (
            record ts { next_req_offset = ts.next_req_offset + chunk_bytes; pending_acks = [] },
            result,
          ))
  unfolding take_ack is_complete
  ack_asked o received asked ts h p k m =
      let self = eq_refl o in
      let acked : TransferSession = record ts { pending_acks = [] } in
      let open' : has_offset o ts.pending_acks ≡ true = rw p (rw self refl) in
      let one : remove_all (λ q. q === o) ts.pending_acks ≡ [] = rw p (rw self refl) in
      let rest : leb ts.filesize ts.total_received ≡ false =
        ground (arith, h.received_is, h.filesize_is) in
      let (r, e) = asks acked (omega (arith, h.asked_is, h.filesize_is)) (omega arith) in
      let result : Option NextRequest → AckResult = λ next. record {
        downloader_done = false;
        file_id = ts.file_id;
        next = next;
        uploader = ts.uploader;
      } in
      (result (some r), rw (h.downloader_is, open', one, rest) (ap (λ q. some (q.0, result q.1)) e))

  pub round_asked :
      (received asked : ℕ) (ts : TransferSession)
      → Stands up down filesize received asked ts
      → received + chunk_bytes < filesize
      → asked + 2 * chunk_bytes ≤ filesize
      → Stands up down filesize
          (received + chunk_bytes)
          (asked + 2 * chunk_bytes)
          (after_round up down sid received ts)
  unfolding after_round
  round_asked received asked ts h k m =
      let (c, e) = chunk_asked received asked ts h k (omega arith) in
      let ts1 : TransferSession = record ts {
        next_req_offset = ts.next_req_offset + chunk_bytes;
        pending_acks = received ∷ ts.pending_acks;
        total_received = (ts.total_received + chunk_bytes) % word_limit;
      } in
      let h1 : Stands up down filesize (received + chunk_bytes) (asked + chunk_bytes)
          (record ts1 { pending_acks = [] }) =
        record {
          uploader_is = h.uploader_is;
          downloader_is = h.downloader_is;
          filesize_is = h.filesize_is;
          received_is = omega (arith, h.received_is);
          asked_is = ap (λ n. n + chunk_bytes) h.asked_is;
          pending_is = refl;
        } in
      let (a, f) =
        ack_asked received (received + chunk_bytes) (asked + chunk_bytes) ts1 h1
          (ap (received ∷◌) h.pending_is) k (omega arith) in
      rw (e, after_round, f)
        (record {
          uploader_is = h.uploader_is;
          downloader_is = h.downloader_is;
          filesize_is = h.filesize_is;
          received_is = h1.received_is;
          asked_is = omega (arith, h.asked_is);
          pending_is = refl;
        })
