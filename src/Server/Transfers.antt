-- ===== src/Server/Transfers.antt =====
-- `TransferManager`: the window of a transfer and its chunks (src/chatroom/TransferManager.cpp).
pub mod Window
pub mod Header
pub mod Transmit
pub mod Acknowledge
pub mod Serve
pub mod Delivered
pub mod Begin
pub mod Overrun
pub mod Asking
use chat_serve.Base.{
  ℕ, zero, suc, ◌+◌, ◌-◌, ◌*◌, ◌/◌, ◌%◌, ◌^◌, min, Bool, true, false, not, ◌&&◌, ◌||◌, List, [],
  ◌∷◌, ◌++◌, Option, none, some, if◌then◌else◌, ltb, leb, nat_beq, ◌===◌, nat_eq, list_eq, Dict,
  lookup, insert, filter, length, get_or,
}
use chat_serve.Text.{Text, lit}
use chat_serve.Text.Number.{show}
use chat_serve.Server.Numbers.{word_limit}
use chat_serve.Server.Files.{push_ref}
use chat_serve.Server.State.{
  Session, ◌is◌, Memory, FileRegistration, TransferSession, TransferManager,
}

abbrev pub chunk_bytes : ℕ
chunk_bytes = 262144

abbrev pub window_size : ℕ
window_size = 8

abbrev pub header_size : ℕ
header_size = 20

unfoldable pub is_complete : TransferSession → Bool
is_complete ts = elim ts.pending_acks [ [] ↦ leb ts.filesize ts.total_received | o ∷ os ↦ false ]

unfoldable pub chunk_size_for_offset : TransferSession → ℕ → ℕ
chunk_size_for_offset ts offset = min chunk_bytes (ts.filesize - offset)

unfoldable pub has_window_space : TransferSession → Bool
has_window_space ts = ltb (length ts.pending_acks) window_size

pub record NextRequest : Type 0 where
  pub session_id : ℕ
  pub file_id : Text
  pub offset : ℕ
  pub size : ℕ
  pub uploader : Session

unfoldable pub try_send_next_request : TransferSession → TransferSession × Option NextRequest
unfolding chunk_size_for_offset has_window_space
try_send_next_request ts =
    if leb ts.filesize ts.next_req_offset || not (has_window_space ts)
    then (ts, none)
    else let size = chunk_size_for_offset ts ts.next_req_offset in
      (
        record ts { next_req_offset = ts.next_req_offset + size },
        some (record {
          session_id = ts.session_id;
          file_id = ts.file_id;
          offset = ts.next_req_offset;
          size = size;
          uploader = ts.uploader;
        }),
      )

-- A round of the loop of the initial window, which goes on with the next one or breaks
abbrev pub gather :
    (TransferSession → TransferSession × List NextRequest)
    → TransferSession × Option NextRequest
    → TransferSession × List NextRequest
gather next (ts, none) = (ts, [])
gather next (ts, some r) = let (last, requests) = next ts in (last, r ∷ requests)

unfoldable pub initial_requests : ℕ → TransferSession → TransferSession × List NextRequest
unfolding try_send_next_request
initial_requests zero ts = (ts, [])
initial_requests (suc n) ts = gather (initial_requests n) (try_send_next_request ts)

abbrev pub new_transfer : ℕ → Text → FileRegistration → Session → ℕ → TransferSession
new_transfer session_id file_id reg downloader start_offset = record {
  session_id = session_id;
  file_id = file_id;
  uploader = reg.uploader;
  downloader = downloader;
  filesize = reg.filesize;
  next_req_offset = start_offset;
  total_received = start_offset;
  pending_acks = [];
}

-- The session's id and its first requests; `none` is an invalid result.
unfoldable pub start_transfer :
    Memory → Text → Session → ℕ → TransferManager → TransferManager × Option (ℕ × List NextRequest)
unfolding initial_requests push_ref
start_transfer m file_id downloader start_offset tm = elim (lookup file_id tm.registrations) [
  | none ↦ (tm, none)
  | some reg ↦
      if not (m.alive reg.uploader.address) || leb reg.filesize start_offset
      then (tm, none)
      else let sid = tm.next_session_id in
        let total_chunks = ((reg.filesize + chunk_bytes - 1) % word_limit) / chunk_bytes in
        let (ts, requests) =
          initial_requests (min window_size total_chunks)
            (new_transfer sid file_id reg downloader start_offset) in
        (
          record tm {
            sessions = insert sid ts tm.sessions;
            uploader_sessions = push_ref reg.uploader.address sid tm.uploader_sessions;
            downloader_sessions = push_ref downloader.address sid tm.downloader_sessions;
            next_session_id = sid + 1;
          },
          some (sid, requests),
        )
]

-- `memcpy` of some bytes into a word, low byte first
unfoldable pub read_word : ℕ → ℕ → List ℕ → ℕ
read_word zero at bytes = 0
read_word (suc n) at bytes = get_or bytes at 0 + 256 * read_word n (at + 1) bytes

pub record ChunkResult : Type 0 where
  pub session_id : ℕ
  pub file_id : Text
  pub offset : ℕ
  pub size : ℕ
  pub downloader : Session
  pub next : Option NextRequest

abbrev pub has_offset : ℕ → List ℕ → Bool
has_offset o [] = false
has_offset o (p ∷ ps) = o === p || has_offset o ps

-- What `handle_chunk_data` does once the session is found
unfoldable pub take_chunk :
    Session
    → (session_id off data_size : ℕ) → TransferSession
    → Option (TransferSession × ChunkResult)
unfolding try_send_next_request chunk_size_for_offset
take_chunk from session_id off data_size ts =
    if not (ts.uploader is from)
      || leb ts.filesize off
      || not (data_size === chunk_size_for_offset ts off)
      || has_offset off ts.pending_acks
    then none
    else let (ts', next) = try_send_next_request (record ts {
      pending_acks = off ∷ ts.pending_acks;
      total_received = (ts.total_received + data_size) % word_limit;
    }) in
      some (
        ts',
        record {
          session_id = session_id;
          file_id = ts.file_id;
          offset = off;
          size = data_size;
          downloader = ts.downloader;
          next = next;
        },
      )

-- `handle_chunk_data` with the words of the header
unfoldable pub put_chunk :
    Session
    → (session_id off data_size : ℕ) → TransferManager
    → TransferManager × Option ChunkResult
unfolding take_chunk
put_chunk from session_id off data_size tm = elim (lookup session_id tm.sessions) [
  | none ↦ (tm, none)
  | some ts ↦ elim (take_chunk from session_id off data_size ts) [
    | none ↦ (tm, none)
    | some (ts', result) ↦ (record tm { sessions = insert session_id ts' tm.sessions }, some result)
  ]
]

unfoldable pub handle_chunk_data :
    Session → List ℕ → TransferManager → TransferManager × Option ChunkResult
unfolding put_chunk read_word
handle_chunk_data from bytes tm =
    let data_size = read_word 4 16 bytes in
    if ltb (length bytes) header_size || not (length bytes === header_size + data_size)
    then (tm, none)
    else put_chunk from (read_word 8 0 bytes) (read_word 8 8 bytes) data_size tm
