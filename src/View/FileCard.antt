-- ===== src/View/FileCard.antt =====
-- web/src/components/FileCard.vue: the card of a file, its buttons and its progress.
use chat_serve.Base.{
  ℕ, zero, suc, ◌+◌, ◌*◌, ◌-◌, ◌/◌, Bool, true, false, List, [], ◌∷◌, ◌++◌, Option, none, some,
  if◌then◌else◌, leb, min, Num, nan, int, pos, negsuc, list_eq, nat_eq, lookup, length,
}
use chat_serve.Text.{Text, lit}
use chat_serve.Text.Number.{show}
use chat_serve.Transfer.State.{
  DownloadSession, Transfer, FileMessage, file_upload, file_notify, Step,
}
use chat_serve.Transfer.Upload.{cancel_upload_file}
use chat_serve.Transfer.Download.{
  start_download, pause_download, resume_download, cancel_download_file,
}

pub data Button : Type 0 where
  cancel_upload pause resume cancel start : Button
  -- without a handler
  upload_cancelled is_expired : Button

-- What the card shows
pub data Card : Type 0 where
  uploading not_uploading expired running stopped offered : Card

abbrev pub file_id_of : FileMessage → Text
file_id_of (file_upload file_id _ _ _) = file_id
file_id_of (file_notify _ file_id _ _ _ _) = file_id

-- `!ft.fileSenders[file.fileId]`, where an empty text counts as none
abbrev pub is_invalid : Option Text → Bool
is_invalid none = true
is_invalid (some []) = true
is_invalid (some (_ ∷ _)) = false

-- `downloading` and `paused`
abbrev pub session_card : Option DownloadSession → Card
session_card none = offered
session_card (some session) = if session.paused then stopped else running

-- The `v-if` of the template
unfoldable pub card : Transfer → FileMessage → Card
card t (file_upload file_id _ _ _) = elim (lookup file_id t.upload_sessions) [
  | none ↦ not_uploading
  | some _ ↦ uploading
]
card t (file_notify _ file_id _ _ _ _) =
    if is_invalid (lookup file_id t.file_senders)
    then expired
    else session_card (lookup file_id t.download_sessions)

abbrev pub buttons : Card → List Button
buttons uploading = cancel_upload ∷ []
buttons not_uploading = upload_cancelled ∷ []
buttons expired = is_expired ∷ []
buttons running = pause ∷ []
buttons stopped = resume ∷ cancel ∷ []
buttons offered = start ∷ []

-- Rounds for the loop of `resumeDownload`: one for each chunk, and one more
abbrev pub rounds_for : Option DownloadSession → ℕ
rounds_for none = 1
rounds_for (some session) = suc (length session.chunks)

-- `@click`
unfoldable pub click : Transfer → Text → Button → Option Step
click t file_id cancel_upload = some (cancel_upload_file t file_id)
click t file_id pause = some (pause_download t file_id)
click t file_id resume = resume_download (rounds_for (lookup file_id t.download_sessions)) t file_id
click t file_id cancel = some (cancel_download_file t file_id)
click t file_id start = some (start_download t file_id 0)
click t file_id upload_cancelled = some (t, [])
click t file_id is_expired = some (t, [])

-- `Math.min(100, Math.round(received / total * 100)) + '%'` for a total that is not 0; halves go up,
-- also below 0.
unfoldable pub percent : ℕ → Num → Text
percent received nan = lit "NaN%"
percent received (int (pos n)) = show (min 100 ((200 * received + n) / (2 * n))) ++ lit "%"
percent received (int (negsuc m)) =
    let n = suc m in
    if leb (200 * received) n
    then lit "0%"
    else lit "-" ++ (show ((200 * received - n + (2 * n - 1)) / (2 * n)) ++ lit "%")

unfoldable pub progress : Option DownloadSession → Text
unfolding percent
progress none = []
progress (some session) = elim session.total [
  | int (pos zero) ↦ []
  | _ ↦ percent session.received session.total
]
