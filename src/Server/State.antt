-- ===== src/Server/State.antt =====
-- What the application layer of the server keeps: sessions (include/ctrl/Session.h), rooms
-- (include/chatroom/Room.h) and the transfers of a room (include/chatroom/TransferManager.h), and
-- the frames that it sends (include/ctrl/CtrlMsg.h).
use chat_serve.Base.{ℕ, Bool, List, [], if◌then◌else◌, ◌===◌, nat_eq, list_eq, Dict}
use chat_serve.Text.{Text}

-- A session by its address, with the two fields that never change.
pub record Session : Type 0 where
  pub address : ℕ
  pub fd : ℕ
  pub io : ℕ

-- Two pointers to a session
infix 50 ◌is◌
abbrev pub ◌is◌ : Session → Session → Bool
s is t = s.address === t.address

-- The fields of the sessions that change, by address, and which sessions a weak pointer does not
-- find any more.
pub record Memory : Type 0 where
  pub alive : ℕ → Bool
  pub room : ℕ → Text
  pub expired : ℕ → Bool

pub record Entry : Type 0 where
  pub sess : Session
  pub nick : Text

pub record FileRegistration : Type 0 where
  pub file_id : Text
  pub filename : Text
  pub filesize : ℕ
  pub uploader : Session

pub record TransferSession : Type 0 where
  pub session_id : ℕ
  pub file_id : Text
  pub uploader : Session
  pub downloader : Session
  pub filesize : ℕ
  pub next_req_offset : ℕ
  pub total_received : ℕ
  pub pending_acks : List ℕ

-- The tables by session are those by address.
pub record TransferManager : Type 0 where
  pub registrations : Dict Text FileRegistration
  pub sessions : Dict ℕ TransferSession
  pub uploader_files : Dict ℕ (List Text)
  pub uploader_sessions : Dict ℕ (List ℕ)
  pub downloader_sessions : Dict ℕ (List ℕ)
  pub next_session_id : ℕ

abbrev pub new_manager : TransferManager
new_manager = record {
  registrations = [];
  sessions = [];
  uploader_files = [];
  uploader_sessions = [];
  downloader_sessions = [];
  next_session_id = 1;
}

pub record Room : Type 0 where
  pub connections : List Entry
  pub transfer_mgr : TransferManager

abbrev pub Rooms : Type 0
Rooms = Dict Text Room

-- The state of `AppRouter`: its rooms, and the sessions that it is called with.
pub record Server : Type 0 where
  pub rooms : Rooms
  pub memory : Memory

pub data Payload : Type 0 where
  text : Text → Payload
  binary : List ℕ → Payload

-- `CtrlDown`
pub record Down : Type 0 where
  pub sess : Session
  pub payload : Payload

abbrev pub send : Session → Text → Down
send s t = record { sess = s; payload = text t }

abbrev pub set_room : ℕ → Text → Memory → Memory
set_room a room m = record m { room = λ b. if a === b then room else m.room b }
