-- ===== src/Tests/Transfer.antt =====
-- A file of three bytes on its way, with the theorems on transfers at that file.
use mathlib.Core.List.{Permᴰ}
use chat_serve.Base.{
  ◌⊎◌, ℕ, ◌≡◌, ◌<◌, ◌≤◌, refl, false, List, [], ◌∷◌, ◌++◌, some, none, arith, list_eq, nat_eq,
  lookup, erase, nat,
}
use chat_serve.Text.{lit}
use chat_serve.Text.Number.{show}
use chat_serve.Transfer.Frame.{Bytes, build_binary_frame}
use chat_serve.Transfer.State.{
  File, DownloadSession, Transfer, Reading, Clock, initial, add_system_message, save_blob,
}
use chat_serve.Notice.{downloaded}
use chat_serve.Transfer.Upload.{
  select_file, send_upload, handle_upok, handle_dwreq, reader_onload, cancel_upload_file,
}
use chat_serve.Transfer.Download.{resume_download}
use chat_serve.Transfer.Receive.{
  handle_leave, handle_dwstart, handle_dwndone, handle_binary, is_sender,
}
use chat_serve.Transfer.Keys.{key_of}
use chat_serve.Transfer.Exchange.{relay, Relays, announcement, handle_binary_twice}
use chat_serve.Transfer.Complete.{Sent, announced, arrived, receive, download_complete}
use chat_serve.Transfer.Checkpoint.{Returns, here, next, resume_download_lem}
use chat_serve.Transfer.EmptyChunk.{resume_download_stuck}
use chat_serve.Transfer.Leave.{handle_leave_lem}
use chat_serve.Transfer.Offers.{upload_of, offers_overtake, cancel_stops_all}
use chat_serve.Format.{format_file_size, format_file_size_lem, kib, mib, IsNearest}

abbrev photo : File
photo = record { name = lit "a.png"; bytes = 7 ∷ 8 ∷ 9 ∷ [] }

abbrev sender : Transfer
sender = record initial { upload_sessions = (lit "f1", upload_of photo) ∷ [] }

abbrev session : DownloadSession
session = record {
  chunks = [];
  received = 0;
  total = nat 3;
  filename = lit "a.png";
  paused = false;
}

abbrev receiver : Transfer
receiver = record initial { download_sessions = (lit "f1", session) ∷ [] }

-- The last byte of the file, asked for with two.
relay_example : Relays sender receiver (lit "f1") (upload_of photo) session 5 2 2
unfolding lookup
relay_example =
    relay sender receiver (lit "f1") (upload_of photo) session 5 2 2 refl refl refl (omega arith)
      (omega arith) (omega arith) (omega arith)

abbrev parts : List Bytes
parts = (7 ∷ 8 ∷ []) ∷ (9 ∷ []) ∷ []

-- The second chunk overtakes the first.
abbrev sent : List Sent
sent = announced 0 ∷ announced 2 ∷ arrived 2 (9 ∷ []) ∷ arrived 0 (7 ∷ 8 ∷ []) ∷ []

download_complete_example :
    let u = receive (lit "f1") 5 (handle_dwstart initial (lit "f1") (lit "a.png") (nat 3)) sent in
    handle_dwndone u (lit "f1") ≡ (
      record u { download_sessions = erase (lit "f1") u.download_sessions },
      save_blob (lit "a.png") (7 ∷ 8 ∷ 9 ∷ []) ∷ add_system_message (downloaded (lit "a.png")) ∷ [],
    )
unfolding lookup
download_complete_example =
    download_complete initial (lit "f1") (lit "a.png") 5 parts sent refl (omega arith)
      (omega arith, (omega arith, tt)) (refl, omega arith, (refl, omega arith, tt))
      ∣ Permᴰ.swap refl refl ∣₁

-- A session with a gap behind its first chunk.
abbrev gapped : DownloadSession
gapped = record session { chunks = (2, 9 ∷ []) ∷ (0, 7 ∷ []) ∷ []; received = 2 }

abbrev halfway : Transfer
halfway = record initial {
  download_sessions = (lit "f1", gapped) ∷ [];
  pending_chunks = (key_of 5 1, announcement (lit "f1") 5 1) ∷ [];
  file_senders = (lit "f1", lit "4") ∷ (lit "f2", lit "6") ∷ [];
}

resume_download_example : Returns halfway (lit "f1") gapped
unfolding lookup
resume_download_example =
    resume_download_lem halfway (lit "f1") gapped refl (omega arith, (omega arith, tt))

resume_download_stuck_example :
    resume_download 1000
      (handle_binary halfway (build_binary_frame (nat 5) (nat 1) [])).0
      (lit "f1")
    ≡ none
unfolding lookup show
resume_download_stuck_example =
    resume_download_stuck halfway (lit "f1") gapped 5 1 1000 refl refl (omega arith) (omega arith)
      (next (7 ∷ []) refl here)

abbrev chunk_frame : Bytes
chunk_frame = build_binary_frame (nat 5) (nat 1) (8 ∷ [])

handle_binary_twice_example :
    handle_binary (handle_binary halfway chunk_frame).0 chunk_frame
    ≡ ((handle_binary halfway chunk_frame).0, [])
handle_binary_twice_example = handle_binary_twice halfway chunk_frame

handle_leave_example :
    (lookup (lit "f1") (handle_leave halfway (lit "4")).file_senders ≡ none)
    × (lookup (lit "f1") (handle_leave halfway (lit "4")).download_sessions ≡ none)
unfolding lookup is_sender
handle_leave_example = handle_leave_lem halfway (lit "4") (lit "f1")

format_file_size_example :
    ((1536 < 1024) × (format_file_size (nat 1536) ≡ show 1536 ++ lit " B"))
    ⊎ ((1024 ≤ 1536)
        × (1536 < 1048576)
        × ((t : ℕ) × (format_file_size (nat 1536) ≡ kib t) × IsNearest 1536 1024 t))
    ⊎ ((1048576 ≤ 1536)
        × ((t : ℕ) × (format_file_size (nat 1536) ≡ mib t) × IsNearest 1536 1048576 t))
format_file_size_example = format_file_size_lem 1536

abbrev noon : Clock
noon = record { hours = 12; minutes = 5 }

abbrev clip : File
clip = record { name = lit "b.mp4"; bytes = 1 ∷ [] }

offers_overtake_example :
    let t = (send_upload (select_file initial (some photo))).0 in
    let u = (send_upload (select_file t (some clip))).0 in
    let v = (handle_upok noon (handle_upok noon u (lit "f1")).0 (lit "f2")).0 in
    (lookup (lit "f1") v.upload_sessions ≡ some (upload_of clip))
    × (lookup (lit "f2") v.upload_sessions ≡ none)
unfolding lookup
offers_overtake_example =
    offers_overtake initial photo clip noon (lit "f1") (lit "f2") (λ e. absurd (ground (arith, e)))

abbrev two_files : Transfer
two_files = record initial {
  upload_sessions = (lit "f1", upload_of photo) ∷ (lit "f2", upload_of clip) ∷ [];
}

abbrev in_flight : Reading
in_flight = record { session_id = lit "5"; offset = nat 0; name = lit "b.mp4"; chunk = 1 ∷ [] }

cancel_stops_all_example :
    let u = (cancel_upload_file two_files (lit "f1")).0 in
    (lookup (lit "f2") u.upload_sessions ≡ some (upload_of clip))
    × (handle_dwreq u (lit "5") (lit "f2") (nat 0) (nat 1) ≡ (u, []))
    × (reader_onload u in_flight ≡ (u, []))
unfolding lookup
cancel_stops_all_example =
    cancel_stops_all two_files (lit "f1") (lit "f2") (lit "5") (nat 0) (nat 1) in_flight
      (λ e. absurd (ground (arith, e)))
