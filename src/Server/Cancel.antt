-- ===== src/Server/Cancel.antt =====
-- `TransferManager`: acknowledgements, and the ends of files and transfers
-- (src/chatroom/TransferManager.cpp).
pub mod Refs
pub mod Indexed
pub mod Ended
pub mod Kept
pub mod Handlers
pub mod Agree
use chat_serve.Base.{
  ℕ, Bool, true, false, not, ◌&&◌, ◌||◌, List, [], ◌∷◌, ◌++◌, Option, none, some, if◌then◌else◌,
  ltb, ◌===◌, nat_eq, list_eq, Dict, lookup, insert, erase, filter,
}
use chat_serve.Text.{Text}
use chat_serve.Server.State.{Session, ◌is◌, TransferSession, TransferManager}
use chat_serve.Server.Transfers.{NextRequest, try_send_next_request, is_complete, has_offset}

-- `std::remove` with `erase`
abbrev pub remove_all {ℓ} : {V : Type ℓ} → (V → Bool) → List V → List V
remove_all p = filter λ v. not (p v)

-- The entry goes with its last reference.
unfoldable pub put_refs {ℓ} : {V : Type ℓ} → ℕ → List V → Dict ℕ (List V) → Dict ℕ (List V)
put_refs key [] refs = erase key refs
put_refs key (v ∷ vs) refs = insert key (v ∷ vs) refs

unfoldable pub remove_session_ref : ℕ → ℕ → Dict ℕ (List ℕ) → Dict ℕ (List ℕ)
unfolding put_refs
remove_session_ref key session_id refs = elim (lookup key refs) [
  | none ↦ refs
  | some ids ↦ put_refs key (remove_all (λ i. i === session_id) ids) refs
]

-- `uploader_files_[uploader]`, which makes an empty entry where there is none
abbrev pub refs_of {ℓ} : {V : Type ℓ} → ℕ → Dict ℕ (List V) → List V
refs_of key refs = elim (lookup key refs) [ none ↦ [] | some vs ↦ vs ]

unfoldable pub unregister_file : Text → TransferManager → TransferManager
unfolding put_refs
unregister_file file_id tm = elim (lookup file_id tm.registrations) [
  | none ↦ tm
  | some reg ↦
      let key = reg.uploader.address in
      let files = remove_all (λ f. f === file_id) (refs_of key tm.uploader_files) in
      record tm {
        uploader_files = put_refs key files tm.uploader_files;
        registrations = erase file_id tm.registrations;
      }
]

unfoldable pub cleanup_session : ℕ → TransferManager → TransferManager
unfolding remove_session_ref
cleanup_session sid tm = elim (lookup sid tm.sessions) [
  | none ↦ tm
  | some ts ↦ record tm {
    uploader_sessions = remove_session_ref ts.uploader.address sid tm.uploader_sessions;
    downloader_sessions = remove_session_ref ts.downloader.address sid tm.downloader_sessions;
    sessions = erase sid tm.sessions;
  }
]

pub record SessionCancel : Type 0 where
  pub file_id : Text
  pub orphaned_downloader : Session

-- The sessions of a list in turn, with the downloaders that are left
unfoldable pub cancel_sessions : List ℕ → TransferManager → TransferManager × List SessionCancel
unfolding cleanup_session
cancel_sessions [] tm = (tm, [])
cancel_sessions (sid ∷ sids) tm =
    let (tm', cancelled) = cancel_sessions sids (cleanup_session sid tm) in
    elim (lookup sid tm.sessions) [
      | none ↦ (tm', cancelled)
      | some ts ↦
          (tm', record { file_id = ts.file_id; orphaned_downloader = ts.downloader } ∷ cancelled)
    ]

unfoldable pub unregister_files : List Text → TransferManager → TransferManager
unfolding unregister_file
unregister_files [] tm = tm
unregister_files (f ∷ fs) tm = unregister_files fs (unregister_file f tm)

-- As an uploader, which the downloaders are told of, and then as a downloader
unfoldable pub cancel_by_session : Session → TransferManager → TransferManager × List SessionCancel
unfolding cancel_sessions unregister_files
cancel_by_session sess tm =
    let key = sess.address in
    let tm1 = unregister_files (refs_of key tm.uploader_files) tm in
    let (tm2, cancelled) = cancel_sessions (refs_of key tm1.uploader_sessions) tm1 in
    let tm3 = record tm2 { uploader_sessions = erase key tm2.uploader_sessions } in
    let (tm4, _) = cancel_sessions (refs_of key tm3.downloader_sessions) tm3 in
    (record tm4 { downloader_sessions = erase key tm4.downloader_sessions }, cancelled)

abbrev is_session_of : Text → Option TransferSession → Bool
is_session_of file_id none = false
is_session_of file_id (some ts) = ts.file_id === file_id

-- The sessions of an uploader that are for the file
unfoldable pub cancel_file_sessions :
    Text → List ℕ → TransferManager → TransferManager × List SessionCancel
unfolding cancel_sessions
cancel_file_sessions file_id [] tm = (tm, [])
cancel_file_sessions file_id (sid ∷ sids) tm =
    let (tm1, first) =
      if is_session_of file_id (lookup sid tm.sessions)
      then cancel_sessions (sid ∷ []) tm
      else (tm, []) in
    let (tm2, others) = cancel_file_sessions file_id sids tm1 in (tm2, first ++ others)

unfoldable pub cancel_file : Text → TransferManager → TransferManager × List SessionCancel
unfolding cancel_file_sessions unregister_file
cancel_file file_id tm = elim (lookup file_id tm.registrations) [
  | none ↦ (tm, [])
  | some reg ↦
      let (tm', cancelled) =
        cancel_file_sessions file_id (refs_of reg.uploader.address tm.uploader_sessions) tm in
      (unregister_file file_id tm', cancelled)
]

-- The larger of the ids found so far
abbrev later : Option ℕ → ℕ → Option ℕ
later none sid = some sid
later (some found) sid = if ltb found sid then some sid else some found

abbrev is_for : Text → Session → TransferSession → Bool
is_for file_id downloader ts = ts.file_id === file_id && ts.downloader is downloader

-- The loop of `find_session_id`, with what it has found
unfoldable pub find_session_id : Text → Session → Option ℕ → Dict ℕ TransferSession → Option ℕ
find_session_id file_id downloader found [] = found
find_session_id file_id downloader found ((sid, ts) ∷ rest) =
    find_session_id file_id downloader
      (if is_for file_id downloader ts then later found sid else found) rest

unfoldable pub cancel_session : Session → Text → TransferManager → TransferManager × Bool
unfolding find_session_id cleanup_session
cancel_session downloader file_id tm = elim (find_session_id file_id downloader none tm.sessions) [
  | none ↦ (tm, false)
  | some sid ↦ (cleanup_session sid tm, true)
]

pub record AckResult : Type 0 where
  pub downloader_done : Bool
  pub file_id : Text
  pub next : Option NextRequest
  pub uploader : Session

-- What `handle_ack` does to the session that it has found; `true` where the transfer is complete
unfoldable pub take_ack : Session → ℕ → TransferSession → Option (TransferSession × AckResult)
unfolding try_send_next_request is_complete
take_ack from offset ts =
    if not (ts.downloader is from) || not (has_offset offset ts.pending_acks)
    then none
    else let acked = record ts { pending_acks = remove_all (λ o. o === offset) ts.pending_acks } in
      let (ts', next) = try_send_next_request acked in
      if is_complete acked
      then some (
        acked,
        record {
          downloader_done = true;
          file_id = ts.file_id;
          next = none;
          uploader = ts.uploader;
        },
      )
      else some (
        ts',
        record {
          downloader_done = false;
          file_id = ts.file_id;
          next = next;
          uploader = ts.uploader;
        },
      )

unfoldable pub handle_ack : Session → ℕ → ℕ → TransferManager → TransferManager × Option AckResult
unfolding take_ack cleanup_session
handle_ack from session_id offset tm = elim (lookup session_id tm.sessions) [
  | none ↦ (tm, none)
  | some ts ↦ elim (take_ack from offset ts) [
    | none ↦ (tm, none)
    | some (ts', result) ↦
        let tm' = record tm { sessions = insert session_id ts' tm.sessions } in
        (if result.downloader_done then cleanup_session session_id tm' else tm', some result)
  ]
]
