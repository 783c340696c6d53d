-- ===== src/Transfer/State.antt =====
-- The state of `useFileTransfer`, and the effects by which it acts on the page and the socket.
use chat_serve.Base.{ℕ, Bool, false, List, [], ◌++◌, Option, none, Dict, Num, ltb, if◌then◌else◌}
use chat_serve.Text.{Text, lit}
use chat_serve.Text.Number.{show}
use chat_serve.Notice.{Notice}
use chat_serve.Transfer.Frame.{Bytes}

-- A `File` of the browser; its `size` is the number of bytes.
pub record File : Type 0 where
  pub name : Text
  pub bytes : Bytes

-- A value of `uploadSessions`; `name` and `size` repeat the file's.
pub record UploadSession : Type 0 where
  pub file : File
  pub name : Text
  pub size : ℕ

-- A value of `downloadSessions`; the keys of `chunks` are byte offsets.
pub record DownloadSession : Type 0 where
  pub chunks : Dict ℕ Bytes
  pub received : ℕ
  pub total : Num
  pub filename : Text
  pub paused : Bool

-- A value of `pendingChunks`.
pub record PendingChunk : Type 0 where
  pub file_id : Text
  pub session_id : Text
  pub offset : Num

pub record Transfer : Type 0 where
  pub upload_sessions : Dict Text UploadSession
  pub download_sessions : Dict Text DownloadSession
  pub pending_chunks : Dict Text PendingChunk
  pub file_senders : Dict Text Text
  pub pending_file : Option File
  pub cancel_upload : Bool

-- A message for the list of messages that stands for a file.
pub data FileMessage : Type 0 where
  file_upload : (file_id filename : Text) (filesize : ℕ) (time : Text) → FileMessage
  file_notify :
      (sender file_id filename : Text) (filesize : Num) (uploader_id time : Text) → FileMessage

-- A `FileReader` at work on a chunk, with what its handlers close over.
pub record Reading : Type 0 where
  pub session_id : Text
  pub offset : Num
  pub name : Text
  pub chunk : Bytes

-- The calls that an operation makes outside its own state, in order.
pub data Effect : Type 0 where
  send_command : Text → Effect
  send_binary : Bytes → Effect
  add_system_message : Notice → Effect
  add_file_message : FileMessage → Effect
  read_as_array_buffer : Reading → Effect
  save_blob : (filename : Text) → Bytes → Effect

-- What an operation returns: the new state, and its effects.
abbrev pub Step : Type 0
Step = Transfer × List Effect

abbrev pub initial : Transfer
initial = record {
  upload_sessions = [];
  download_sessions = [];
  pending_chunks = [];
  file_senders = [];
  pending_file = none;
  cancel_upload = false;
}

-- The local time of day, as `Date` gives it.
pub record Clock : Type 0 where
  pub hours : ℕ
  pub minutes : ℕ

-- `String(n).padStart(2, '0')` for a number of at least one digit
pad_two : ℕ → Text
pad_two n = if ltb n 10 then lit "0" ++ show n else show n

unfoldable pub current_time : Clock → Text
unfolding pad_two
current_time d = pad_two d.hours ++ (lit ":" ++ pad_two d.minutes)
