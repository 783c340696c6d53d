-- ===== src/Transfer/Offers.antt =====
-- Offering files: from the choice of a file to its upload session, and what cancelling one stops.
use chat_serve.Base.{
  ◌≡◌, refl, ◌≢◌, [], some, list_eq, nat_eq, arith, lookup, lookup-insert_self, lookup-insert_ne,
  lookup-erase_ne, Num, length,
}
use chat_serve.Text.{Text}
use chat_serve.Transfer.State.{File, UploadSession, Transfer, Reading, Clock}
use chat_serve.Transfer.Upload.{
  select_file, send_upload, cancel_upload_file, handle_dwreq, reader_onload, handle_upok,
}

abbrev pub upload_of : File → UploadSession
upload_of file = record { file = file; name = file.name; size = length file.bytes }

-- A file that is chosen, offered and accepted gets a session under the id that the server gave it,
-- the session of any other id stays as it was, and a second acceptance after that does nothing.
offered_once :
    (t : Transfer) (file : File) (now : Clock) (id j other : Text)
    → id ≢ other
    → let u = (handle_upok now (send_upload (select_file t (some file))).0 id).0 in
      (lookup id u.upload_sessions ≡ some (upload_of file))
      × (lookup other u.upload_sessions ≡ lookup other t.upload_sessions)
      × (handle_upok now u j ≡ (u, []))
unfolding handle_upok send_upload select_file
offered_once t file now id j other ne = (
  lookup-insert_self id (upload_of file) t.upload_sessions,
  lookup-insert_ne id other (upload_of file) t.upload_sessions ne,
  refl,
)

-- A second file that is chosen and offered before the first is accepted takes the first one's
-- place: the id of the first file stands for the second, and the id of the second for none.
pub offers_overtake :
    (t : Transfer) (first second : File) (now : Clock) (id j : Text)
    → id ≢ j
    → let u =
        (send_upload (select_file (send_upload (select_file t (some first))).0 (some second))).0 in
      let v = (handle_upok now (handle_upok now u id).0 j).0 in
      (lookup id v.upload_sessions ≡ some (upload_of second))
      × (lookup j v.upload_sessions ≡ lookup j t.upload_sessions)
unfolding handle_upok send_upload select_file
offers_overtake t first second now id j ne = (
  lookup-insert_self id (upload_of second) t.upload_sessions,
  lookup-insert_ne id j (upload_of second) t.upload_sessions ne,
)

-- Cancelling the upload of one file leaves the session of another file in place, yet in the state
-- that it leaves, a request for that file starts no reader, and no running reader sends its chunk.
pub cancel_stops_all :
    (t : Transfer) (cancelled file_id session_id : Text) (offset size : Num) (r : Reading)
    → cancelled ≢ file_id
    → let u = (cancel_upload_file t cancelled).0 in
      (lookup file_id u.upload_sessions ≡ lookup file_id t.upload_sessions)
      × (handle_dwreq u session_id file_id offset size ≡ (u, []))
      × (reader_onload u r ≡ (u, []))
unfolding cancel_upload_file handle_dwreq reader_onload
cancel_stops_all t cancelled file_id session_id offset size r ne =
    (lookup-erase_ne cancelled file_id t.upload_sessions ne, ground arith, refl)
