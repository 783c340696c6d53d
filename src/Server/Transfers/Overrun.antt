-- ===== src/Server/Transfers/Overrun.antt =====
-- How much a transfer session asks of the uploader at a time (src/chatroom/TransferManager.cpp).
use chat_serve.Base.{
  ℕ, zero, suc, ◌+◌, ◌*◌, ◌≤◌, ◌<◌, ◌≡◌, refl, ◌∙◌, subst, [], nat_eq, eq_refl, arith,
}
use chat_serve.Text.{Text}
use chat_serve.Server.Numbers.{word_limit}
use chat_serve.Server.State.{Session, TransferSession, FileRegistration}
use chat_serve.Server.Transfers.{chunk_bytes, window_size, initial_requests, new_transfer}
use chat_serve.Server.Transfers.Asking.{after_round, Stands, initial_asked, round_asked}

-- So many of them, one behind the other
pub after_rounds : Session → Session → ℕ → ℕ → ℕ → TransferSession → TransferSession
after_rounds up down sid zero o ts = ts
after_rounds up down sid (suc k) o ts =
    after_rounds up down sid k (o + chunk_bytes) (after_round up down sid o ts)

module _ (up down : Session) (sid filesize : ℕ) (l : filesize < word_limit) where
  rounds_asked :
      (k received asked : ℕ) (ts : TransferSession)
      → Stands up down filesize received asked ts
      → received + chunk_bytes * k < filesize
      → asked + 2 * chunk_bytes * k ≤ filesize
      → Stands up down filesize
          (received + chunk_bytes * k)
          (asked + 2 * chunk_bytes * k)
          (after_rounds up down sid k received ts)
  unfolding after_rounds
  rounds_asked zero received asked ts h k m =
      subst (λ n. Stands up down filesize n (asked + 2 * chunk_bytes * 0) ts) (omega arith)
        (subst (λ n. Stands up down filesize received n ts) (omega arith) h)
  rounds_asked (suc k) received asked ts h l' m =
      let ih =
        rounds_asked k (received + chunk_bytes) (asked + 2 * chunk_bytes) _
          (round_asked up down sid filesize l received asked ts h (omega arith) (omega arith))
          (omega arith) (omega arith) in
      let e : received + chunk_bytes + chunk_bytes * k ≡ received + chunk_bytes * suc k =
        omega arith in
      let f : asked + 2 * chunk_bytes + 2 * chunk_bytes * k ≡ asked + 2 * chunk_bytes * suc k =
        omega arith in
      rw (← e, ← f) ih

-- The window bounds only what has arrived and is not acknowledged. A new transfer of a file of at
-- least 8 + 2k whole chunks asks for 8 at first; behind k of them that have come, each acknowledged
-- before the next, just k chunks are received and 8 + 2k are asked for, so that 8 + k chunks are
-- on their way at once, and one more with every chunk. Sizes are below 2 ^ 64.
pub window_overrun :
    (reg : FileRegistration) (down : Session) (sid k : ℕ) (file_id : Text)
    → reg.filesize < word_limit
    → chunk_bytes * (window_size + 2 * k) ≤ reg.filesize
    → let first = (initial_requests window_size (new_transfer sid file_id reg down 0)).0 in
      let ts = after_rounds reg.uploader down sid k 0 first in
      (ts.total_received ≡ chunk_bytes * k)
      × (ts.next_req_offset ≡ chunk_bytes * (window_size + 2 * k))
      × (ts.pending_acks ≡ [])
window_overrun reg down sid k file_id l m =
    let new = new_transfer sid file_id reg down 0 in
    let begun : Stands reg.uploader down reg.filesize 0 0 new = record {
      uploader_is = eq_refl reg.uploader.address;
      downloader_is = eq_refl down.address;
      filesize_is = refl;
      received_is = refl;
      asked_is = refl;
      pending_is = refl;
    } in
    let first =
      initial_asked reg.uploader down sid reg.filesize l window_size 0 0 new begun (omega arith) in
    let h =
      rounds_asked reg.uploader down sid reg.filesize l k 0 (0 + chunk_bytes * window_size) _ first
        (omega arith) (omega arith) in
    (h.received_is ∙ omega arith, h.asked_is ∙ omega arith, h.pending_is)
