-- ===== src/View/CardClicks.antt =====
-- Every button of a file's card against what the card promises.
use chat_serve.Base.{
  ℕ, ◌≡◌, refl, sym, ap, subst, ◌∙◌, ◌⊎◌, inl, inr, Bool, true, false, [], Option, none, some,
  if◌then◌else◌, All, Bool-cases, Option-cases, list_eq, nat_eq, list_beq_iff, eq_refl, ◌===◌, Dict,
  lookup, insert, lookup-erase_self, Num,
}
use chat_serve.Text.{Text}
use chat_serve.Transfer.State.{
  DownloadSession, Transfer, FileMessage, file_upload, file_notify, Step,
}
use chat_serve.Transfer.Upload.{cancel_upload_file}
use chat_serve.Transfer.Download.{
  start_download, pause_download, resume_download, cancel_download_file, set_paused,
}
use chat_serve.Transfer.Assembly.{IsFull}
use chat_serve.Transfer.Checkpoint.{lookup-set_paused, resume_download_lem}
use chat_serve.View.FileCard.{
  cancel_upload, pause, resume, cancel, start, upload_cancelled, is_expired, uploading,
  not_uploading, expired, running, stopped, offered, file_id_of, is_invalid, session_card, card,
  buttons, rounds_for, click,
}
use chat_serve.View.CardMoves.{
  stops_upload, stays_cancelled, stays_expired, pauses, resumes, completes, cancels, asks, OnlyFile,
  Clicks, clicked, cancel_upload-OnlyFile, pause_download-OnlyFile, start_download-OnlyFile,
  cancel_download-OnlyFile, IsFramed, resume_download-IsFramed, finish_sessions, erase_other,
}

set_paused-none :
    (v : Bool) (f : Text) (m : Dict Text DownloadSession)
    → lookup f m ≡ none
    → lookup f (set_paused v f m) ≡ none
unfolding set_paused
set_paused-none v f m e =
    subst
      (λ (o : Option DownloadSession).
        lookup f (elim o [ none ↦ m | some s ↦ insert f (record s { paused = v }) m ]) ≡ none)
      (sym e) e

if_self : (f : Text) (x y : Option DownloadSession) → (if f === f then x else y) ≡ x
if_self f x y = ap (λ b. if b then x else y) (eq_refl f)

if_other :
    (f j : Text) (x y o : Option DownloadSession)
    → o ≡ (if f === j then x else y)
    → (f ≡ j) ⊎ (o ≡ y)
if_other f j x y o h = elim (Bool-cases (f === j)) [
  | inl e ↦ inl ((list_beq_iff f j).0 e)
  | inr e ↦ inr (h ∙ ap (λ b. if b then x else y) e)
]

known_card :
    (d : Transfer) (sender f name time uploader : Text) (size : Num)
    → is_invalid (lookup f d.file_senders) ≡ false
    → card d (file_notify sender f name size uploader time)
      ≡ session_card (lookup f d.download_sessions)
unfolding card
known_card d sender f name time uploader size h = rw (card, h) refl

module _ (t : Transfer) (sender f name time uploader : Text) (size : Num)
    (known : is_invalid (lookup f t.file_senders) ≡ false) where
  abbrev notice : FileMessage
  notice = file_notify sender f name size uploader time

  -- A state with the same senders
  card_at :
      (d : Transfer)
      → d.file_senders ≡ t.file_senders
      → card d notice ≡ session_card (lookup f d.download_sessions)
  card_at d e = known_card d sender f name time uploader size (rw e known)

  pause-Clicks :
      (s : DownloadSession)
      → lookup f t.download_sessions ≡ some s
      → s.paused ≡ false
      → Clicks t notice pause
  unfolding click pause_download
  pause-Clicks s e h =
      clicked t notice pause running stopped (pause_download t f) refl
        (card_at t refl ∙ ap session_card e ∙ rw h refl)
        (card_at (pause_download t f).0 refl
          ∙ ap session_card (lookup-set_paused true f s t.download_sessions e))
        pauses (pause_download-OnlyFile t f)

  cancel-Clicks :
      (s : DownloadSession)
      → lookup f t.download_sessions ≡ some s
      → s.paused ≡ true
      → Clicks t notice cancel
  unfolding click cancel_download_file
  cancel-Clicks s e h =
      clicked t notice cancel stopped offered (cancel_download_file t f) refl
        (card_at t refl ∙ ap session_card e ∙ rw h refl)
        (card_at (cancel_download_file t f).0 refl
          ∙ ap session_card (lookup-erase_self f t.download_sessions))
        cancels (cancel_download-OnlyFile t f)

  start-Clicks : lookup f t.download_sessions ≡ none → Clicks t notice start
  unfolding click start_download
  start-Clicks e =
      clicked t notice start offered offered (start_download t f 0) refl
        (card_at t refl ∙ ap session_card e)
        (card_at (start_download t f 0).0 refl ∙ ap session_card started) asks
        (start_download-OnlyFile t f 0)
    where
      started : lookup f (set_paused false f t.download_sessions) ≡ none
      started = set_paused-none false f t.download_sessions e

  resume-Clicks :
      (s : DownloadSession)
      → lookup f t.download_sessions ≡ some s
      → s.paused ≡ true
      → All (λ c. IsFull c.1) s.chunks
      → Clicks t notice resume
  unfolding click
  resume-Clicks s e h full =
      let (c, r, run, gap, ends, way) = resume_download_lem t f s e full in
      let frame : IsFramed t (some r) = subst (IsFramed t) ends (resume_download-IsFramed _ t f) in
      let clicks : click t f resume ≡ some r =
        ap (λ o. resume_download (rounds_for o) t f) e ∙ ends in
      let before = card_at t refl ∙ ap session_card e ∙ rw h refl in
      elim way [
        | inl (_, k) ↦
            let sessions = ap (λ (x : Step). x.0.download_sessions) k ∙ finish_sessions t f s e in
            clicked t notice resume stopped offered r clicks before
              (card_at r.0 frame.1
                ∙ ap (λ m. session_card (lookup f m)) sessions
                ∙ ap session_card (lookup-erase_self f t.download_sessions))
              completes
              (record {
                uploads = λ j. inr (ap (lookup j) frame.0);
                downloads = λ j. rw sessions (erase_other f t.download_sessions j);
                senders = frame.1;
              })
        | inr (_, k) ↦
            clicked t notice resume stopped running r clicks before
              (card_at r.0 frame.1 ∙ ap session_card (k.sessions f ∙ if_self f _ _)) resumes
              (record {
                uploads = λ j. inr (ap (lookup j) frame.0);
                downloads = λ j. if_other f j _ _ _ (k.sessions j);
                senders = frame.1;
              })
      ]

  -- The buttons of the card of an announced file
  notice-Clicks :
      ((s : DownloadSession)
        → lookup f t.download_sessions ≡ some s
        → All (λ c. IsFull c.1) s.chunks)
      → All (Clicks t notice) (buttons (session_card (lookup f t.download_sessions)))
  notice-Clicks full = elim (Option-cases (lookup f t.download_sessions)) [
    | inl e ↦ rw e (start-Clicks e, tt)
    | inr (s, e) ↦ elim (Bool-cases s.paused) [
      | inl h ↦ rw (e, h) (resume-Clicks s e h (full s e), (cancel-Clicks s e h, tt))
      | inr h ↦ rw (e, h) (pause-Clicks s e h, tt)
    ]
  ]

same-OnlyFile : (f : Text) (t : Transfer) → OnlyFile f t t
same-OnlyFile f t = record { uploads = λ j. inr refl; downloads = λ j. inr refl; senders = refl }

upload-Clicks :
    (t : Transfer) (f name time : Text) (size : ℕ)
    → All
        (Clicks t (file_upload f name size time))
        (buttons (card t (file_upload f name size time)))
unfolding card click cancel_upload_file
upload-Clicks t f name time size = elim (Option-cases (lookup f t.upload_sessions)) [
  | inl e ↦
      rw (e, card)
        (
          clicked t (file_upload f name size time) upload_cancelled not_uploading not_uploading
              (t, []) refl (rw (card, e) refl) (rw (card, e) refl) stays_cancelled
              (same-OnlyFile f t),
          tt,
        )
  | inr (s, e) ↦
      rw (e, card)
        (
          clicked t (file_upload f name size time) cancel_upload uploading not_uploading
              (cancel_upload_file t f) refl (rw (card, e) refl)
              (rw (card, lookup-erase_self f t.upload_sessions) refl) stops_upload
              (cancel_upload-OnlyFile t f),
          tt,
        )
]

-- A click on any button that a card shows ends, provided that no chunk of the file's download is
-- empty; it moves the card as `Moves` says, and leaves the cards of all other files as they are.
pub card-Clicks :
    (t : Transfer) (msg : FileMessage)
    → ((s : DownloadSession)
        → lookup (file_id_of msg) t.download_sessions ≡ some s
        → All (λ c. IsFull c.1) s.chunks)
    → All (Clicks t msg) (buttons (card t msg))
unfolding card click
card-Clicks t (file_upload f name size time) full = upload-Clicks t f name time size
card-Clicks t (file_notify sender f name size uploader time) full =
    elim (Bool-cases (is_invalid (lookup f t.file_senders))) [
      | inl e ↦
          rw (e, card)
            (
              clicked t (file_notify sender f name size uploader time) is_expired expired expired
                  (t, []) refl (rw (card, e) refl) (rw (card, e) refl) stays_expired
                  (same-OnlyFile f t),
              tt,
            )
      | inr e ↦ rw (e, card) (notice-Clicks t sender f name time uploader size e full)
    ]
