-- ===== src/View/CardMoves.antt =====
-- The buttons of a file's card and `useFileTransfer`: what a click makes of the cards.
use chat_serve.Base.{
  ℕ, ◌≡◌, ◌≢◌, refl, ◌⊎◌, inl, inr, Bool, true, false, Option, none, some, arith, Bool-cases,
  Option-cases, list_eq, nat_eq, list_beq_iff, ◌===◌, Dict, lookup, erase, lookup-erase,
}
use chat_serve.Text.{Text}
use chat_serve.Transfer.State.{
  DownloadSession, Transfer, FileMessage, file_upload, file_notify, Step,
}
use chat_serve.Transfer.Upload.{cancel_upload_file}
use chat_serve.Transfer.Download.{
  start_download, pause_download, resume_download, cancel_download_file, finish_download,
  set_paused, resume_at, find_checkpoint,
}
use chat_serve.Transfer.Checkpoint.{lookup-set_paused_ne}
use chat_serve.View.FileCard.{
  Button, cancel_upload, pause, resume, cancel, start, upload_cancelled, is_expired, Card,
  uploading, not_uploading, expired, running, stopped, offered, file_id_of, card, click,
}

-- What a card promises: the moves of its buttons.
pub data Moves : Card → Button → Card → Type 0 where
  stops_upload : Moves uploading cancel_upload not_uploading
  stays_cancelled : Moves not_uploading upload_cancelled not_uploading
  stays_expired : Moves expired is_expired expired
  pauses : Moves running pause stopped
  resumes : Moves stopped resume running
  -- all bytes are there
  completes : Moves stopped resume offered
  cancels : Moves stopped cancel offered
  -- the session comes with the server's answer
  asks : Moves offered start offered

-- The sessions of a transfer after a step on one file: what the cards look at
pub record OnlyFile (f : Text) (d t : Transfer) : Type 0 where
  pub uploads : (j : Text) → (f ≡ j) ⊎ (lookup j d.upload_sessions ≡ lookup j t.upload_sessions)
  pub downloads :
      (j : Text) → (f ≡ j) ⊎ (lookup j d.download_sessions ≡ lookup j t.download_sessions)
  pub senders : d.file_senders ≡ t.file_senders

-- Another card is as it was.
other_card :
    (f : Text) (d t : Transfer) (msg : FileMessage)
    → OnlyFile f d t
    → (f ≡ file_id_of msg) ⊎ (card d msg ≡ card t msg)
unfolding card
other_card f d t (file_upload j _ _ _) h = elim (h.uploads j) [
  | inl e ↦ inl e
  | inr e ↦ inr (rw (card, e) refl)
]
other_card f d t (file_notify _ j _ _ _ _) h = elim (h.downloads j) [
  | inl e ↦ inl e
  | inr e ↦ inr (rw (card, e, h.senders) refl)
]

pub same_file : (f j : Text) → (f ≡ j) ⊎ (f ≢ j)
same_file f j = elim (Bool-cases (f === j)) [
  | inl e ↦ inl ((list_beq_iff f j).0 e)
  | inr e ↦ inr (λ h. ground (arith, (list_beq_iff f j).1 h, e))
]

pub erase_other :
    {V : Type 0} (f : Text) (m : Dict Text V) (j : Text)
    → (f ≡ j) ⊎ (lookup j (erase f m) ≡ lookup j m)
erase_other f m j = elim (Bool-cases (f === j)) [
  | inl e ↦ inl ((list_beq_iff f j).0 e)
  | inr e ↦ inr (rw (lookup-erase, e) refl)
]

pause_other :
    (b : Bool) (f : Text) (m : Dict Text DownloadSession) (j : Text)
    → (f ≡ j) ⊎ (lookup j (set_paused b f m) ≡ lookup j m)
pause_other b f m j = elim (same_file f j) [
  | inl e ↦ inl e
  | inr e ↦ inr (lookup-set_paused_ne b f j m e)
]

stay : {V : Type 0} (f : Text) (m : Dict Text V) (j : Text) → (f ≡ j) ⊎ (lookup j m ≡ lookup j m)
stay f m j = inr refl

pub cancel_upload-OnlyFile : (t : Transfer) (f : Text) → OnlyFile f (cancel_upload_file t f).0 t
unfolding cancel_upload_file
cancel_upload-OnlyFile t f = record {
  uploads = erase_other f t.upload_sessions;
  downloads = stay f t.download_sessions;
  senders = refl;
}

pub pause_download-OnlyFile : (t : Transfer) (f : Text) → OnlyFile f (pause_download t f).0 t
unfolding pause_download
pause_download-OnlyFile t f = record {
  uploads = stay f t.upload_sessions;
  downloads = pause_other true f t.download_sessions;
  senders = refl;
}

pub start_download-OnlyFile :
    (t : Transfer) (f : Text) (n : ℕ) → OnlyFile f (start_download t f n).0 t
unfolding start_download
start_download-OnlyFile t f n = record {
  uploads = stay f t.upload_sessions;
  downloads = pause_other false f t.download_sessions;
  senders = refl;
}

pub cancel_download-OnlyFile : (t : Transfer) (f : Text) → OnlyFile f (cancel_download_file t f).0 t
unfolding cancel_download_file
cancel_download-OnlyFile t f = record {
  uploads = stay f t.upload_sessions;
  downloads = erase_other f t.download_sessions;
  senders = refl;
}

abbrev pub IsFramed : Transfer → Option Step → Type 0
IsFramed t none = Unit
IsFramed t (some r) =
    (r.0.upload_sessions ≡ t.upload_sessions) × (r.0.file_senders ≡ t.file_senders)

resume_at-IsFramed :
    (t : Transfer) (f : Text) (session : DownloadSession) (c : ℕ)
    → IsFramed t (some (resume_at t f session c))
unfolding resume_at finish_download start_download
resume_at-IsFramed t f session c = (ground arith, ground arith)

pub resume_download-IsFramed :
    (n : ℕ) (t : Transfer) (f : Text) → IsFramed t (resume_download n t f)
unfolding resume_download
resume_download-IsFramed n t f = elim (Option-cases (lookup f t.download_sessions)) [
  | inl e ↦ rw (e, resume_download) (refl, refl)
  | inr (session, e) ↦ elim (Option-cases (find_checkpoint n session.chunks 0)) [
    | inl g ↦ rw (e, resume_download, g) tt
    | inr (c, g) ↦ rw (e, resume_download, g) (resume_at-IsFramed t f session c)
  ]
]

pub finish_sessions :
    (t : Transfer) (f : Text) (session : DownloadSession)
    → lookup f t.download_sessions ≡ some session
    → (finish_download t f).0.download_sessions ≡ erase f t.download_sessions
unfolding finish_download
finish_sessions t f session e = rw (finish_download, e) refl

-- A click on a shown button always ends; it moves the card along `Moves`, and leaves the card of every
-- other file as it is.
unfoldable pub Clicks : Transfer → FileMessage → Button → Type 0
Clicks t msg b =
    (r : Step) × (click t (file_id_of msg) b ≡ some r)
    × Moves (card t msg) b (card r.0 msg)
    × ((other : FileMessage)
        → (file_id_of msg ≡ file_id_of other) ⊎ (card r.0 other ≡ card t other))

pub clicked :
    (t : Transfer) (msg : FileMessage) (b : Button) (x y : Card) (r : Step)
    → click t (file_id_of msg) b ≡ some r
    → card t msg ≡ x
    → card r.0 msg ≡ y
    → Moves x b y
    → OnlyFile (file_id_of msg) r.0 t
    → Clicks t msg b
unfolding Clicks
clicked t msg b x y r e h k m o =
    (r, e, rw (h, k) m, λ other. other_card (file_id_of msg) r.0 t other o)
