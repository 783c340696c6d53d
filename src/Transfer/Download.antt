-- ===== src/Transfer/Download.antt =====
-- The receiver's side of `useFileTransfer`: pausing, resuming and finishing a download.
use chat_serve.Base.{
  ℕ, zero, suc, ◌+◌, Bool, true, false, not, List, [], ◌∷◌, ◌++◌, map, Option, none, some,
  if◌then◌else◌, ltb, leb, ◌===◌, Dict, list_eq, nat_eq, lookup, insert, erase, keep_entries, keys,
  concat, lt_num, ge_num, length,
}
use chat_serve.Text.{Text, lit}
use chat_serve.Text.Number.{show}
use chat_serve.Notice.{downloaded, incomplete}
use chat_serve.Transfer.Frame.{Bytes}
use chat_serve.Transfer.State.{
  DownloadSession, Transfer, send_command, add_system_message, save_blob, Step,
}

-- `if (downloadSessions[fileId]) downloadSessions[fileId].paused = value`
unfoldable pub set_paused : Bool → Text → Dict Text DownloadSession → Dict Text DownloadSession
set_paused value file_id sessions = elim (lookup file_id sessions) [
  | none ↦ sessions
  | some session ↦ insert file_id (record session { paused = value }) sessions
]

unfoldable pub start_download : Transfer → Text → ℕ → Step
unfolding set_paused
start_download t file_id start_offset = (
  record t { download_sessions = set_paused false file_id t.download_sessions },
  send_command (
        lit "DOWNLOAD|"
        ++ (file_id ++ (if ltb 0 start_offset then lit "|" ++ show start_offset else [])))
      ∷ [],
)

unfoldable pub pause_download : Transfer → Text → Step
unfolding set_paused
pause_download t file_id = (
  record t { download_sessions = set_paused true file_id t.download_sessions },
  send_command (lit "DWNPAUSE|" ++ file_id) ∷ [],
)

-- The numeric `sort`.
unfoldable pub insert_sorted : ℕ → List ℕ → List ℕ
insert_sorted a [] = a ∷ []
insert_sorted a (b ∷ bs) = if leb a b then a ∷ b ∷ bs else b ∷ insert_sorted a bs

unfoldable pub sort : List ℕ → List ℕ
unfolding insert_sorted
sort [] = []
sort (a ∷ as') = insert_sorted a (sort as')

-- `session.chunks[o]` for a key `o`
unfoldable pub chunk_at : Dict ℕ Bytes → ℕ → Bytes
unfolding lookup
chunk_at chunks o = elim (lookup o chunks) [ none ↦ [] | some chunk ↦ chunk ]

-- The blob of all chunks in the order of their offsets.
unfoldable pub assemble : Dict ℕ Bytes → Bytes
assemble chunks = concat (map (chunk_at chunks) (sort (keys chunks)))

unfoldable pub finish_download : Transfer → Text → Step
finish_download t file_id = elim (lookup file_id t.download_sessions) [
  | none ↦ (t, [])
  | some session ↦
      let blob = assemble session.chunks in
      let size = length blob in
      (
        record t { download_sessions = erase file_id t.download_sessions },
        (if lt_num size session.total
              then add_system_message (incomplete session.filename size session.total) ∷ []
              else [])
            ++ save_blob session.filename blob
              ∷ add_system_message (downloaded session.filename)
              ∷ [],
      )
]

-- The loop of `resumeDownload`: the end of the run of chunks from `checkpoint` on. `none` means
-- that the rounds ran out.
unfoldable pub find_checkpoint : ℕ → Dict ℕ Bytes → ℕ → Option ℕ
find_checkpoint zero chunks checkpoint = none
find_checkpoint (suc rounds) chunks checkpoint = elim (lookup checkpoint chunks) [
  | none ↦ some checkpoint
  | some chunk ↦ find_checkpoint rounds chunks (checkpoint + length chunk)
]

-- `resumeDownload` behind its loop
unfoldable pub resume_at : Transfer → Text → DownloadSession → ℕ → Step
unfolding finish_download start_download
resume_at t file_id session checkpoint =
    if ge_num checkpoint session.total
    then finish_download t file_id
    else start_download
        (record t {
          download_sessions =
              insert file_id
                (record session {
                  chunks = keep_entries (λ o _. not (leb checkpoint o)) session.chunks;
                  received = checkpoint;
                  paused = false;
                })
                t.download_sessions;
        })
        file_id checkpoint

-- `none` means that the loop did not end within `rounds`.
unfoldable pub resume_download : ℕ → Transfer → Text → Option Step
unfolding resume_at
resume_download rounds t file_id = elim (lookup file_id t.download_sessions) [
  | none ↦ some (t, [])
  | some session ↦ elim (find_checkpoint rounds session.chunks 0) [
    | none ↦ none
    | some checkpoint ↦ some (resume_at t file_id session checkpoint)
  ]
]

unfoldable pub cancel_download_file : Transfer → Text → Step
cancel_download_file t file_id = (
  record t {
    download_sessions = erase file_id t.download_sessions;
    pending_chunks = keep_entries (λ _ chunk. not (chunk.file_id === file_id)) t.pending_chunks;
  },
  send_command (lit "DWNCANCEL|" ++ file_id) ∷ [],
)
