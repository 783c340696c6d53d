-- ===== src/Transfer/Complete.antt =====
-- A whole download, from `handleDWSTART` to `handleDWNDONE`.
use mathlib.Core.List.{Perm}
use chat_serve.Base.{
  ℕ, ◌^◌, ◌<◌, ◌≡◌, refl, ◌∙◌, Bool, true, false, List, [], ◌∷◌, none, some, if◌then◌else◌, nat_beq,
  nat_eq, list_eq, arith, All, inl, inr, Bool-cases, nat_beq_iff, Dict, lookup, insert, erase,
  lookup-insert_self, lookup-insert_ne, lookup-erase_ne, concat, length, Num, nat, ltb,
}
use chat_serve.Text.{Text}
use chat_serve.Text.Number.{show, show_num}
use chat_serve.Notice.{downloaded}
use chat_serve.Transfer.Frame.{Bytes, build_binary_frame}
use chat_serve.Transfer.State.{DownloadSession, Transfer, add_system_message, save_blob}
use chat_serve.Transfer.Download.{assemble, finish_download}
use chat_serve.Transfer.Receive.{
  add_chunk, handle_dwstart, handle_dwdata, handle_binary, handle_dwndone,
}
use chat_serve.Transfer.Exchange.{announcement, accept_announced}
use chat_serve.Transfer.Keys.{key_of, key_of-ne}
use chat_serve.Transfer.Assembly.{collect, pieces, IsFull, assemble-collect}

-- What the server sends in the course of a download: a chunk's `DWDATA`, and its frame.
pub data Sent : Type 0 where
  announced : (offset : ℕ) → Sent
  arrived : (offset : ℕ) → Bytes → Sent

-- The receiver's state after such messages, of session `s` of the file `file_id`.
unfoldable pub receive : Text → ℕ → Transfer → List Sent → Transfer
receive file_id s t [] = t
receive file_id s t (announced o ∷ rest) =
    receive file_id s (handle_dwdata t (show s) file_id (nat o)) rest
receive file_id s t (arrived o d ∷ rest) =
    receive file_id s (handle_binary t (build_binary_frame (nat s) (nat o) d)).0 rest

abbrev pub arrivals : List Sent → Dict ℕ Bytes
arrivals [] = []
arrivals (announced o ∷ rest) = arrivals rest
arrivals (arrived o d ∷ rest) = (o, d) ∷ arrivals rest

-- The offsets that are announced and have not arrived yet.
abbrev pub remove : ℕ → List ℕ → List ℕ
remove o [] = []
remove o (p ∷ open') = if nat_beq p o then remove o open' else p ∷ remove o open'

abbrev pub contains : ℕ → List ℕ → Bool
contains o [] = false
contains o (p ∷ open') = if nat_beq p o then true else contains o open'

-- Each frame comes behind an announcement of its own; offsets are such that a double is exact.
abbrev pub IsAnnounced : List ℕ → List Sent → Type 0
IsAnnounced open' [] = Unit
IsAnnounced open' (announced o ∷ rest) = IsAnnounced (o ∷ open') rest
IsAnnounced open' (arrived o d ∷ rest) =
    (contains o open' ≡ true) × (o < 2 ^ 53) × IsAnnounced (remove o open') rest

ltb_self : (n : ℕ) → ltb n n ≡ false
ltb_self n = ground arith

module _ (file_id : Text) (s : ℕ) where
  -- The open announcements are filed.
  abbrev Filed : Transfer → List ℕ → Type 0
  Filed t = All λ o. lookup (key_of s o) t.pending_chunks ≡ some (announcement file_id s o)

  Filed-contains :
      (t : Transfer) (o : ℕ) (open' : List ℕ)
      → Filed t open'
      → contains o open' ≡ true
      → lookup (key_of s o) t.pending_chunks ≡ some (announcement file_id s o)
  Filed-contains t o [] h c = cc
  Filed-contains t o (p ∷ open') h c = elim (Bool-cases (nat_beq p o)) [
    | inl same ↦ rw (← (nat_beq_iff p o).0 same) h.0
    | inr other ↦ Filed-contains t o open' h.1 (rw other at c)
  ]

  Filed-announce :
      (t : Transfer) (o : ℕ) (open' : List ℕ)
      → Filed t open'
      → Filed (handle_dwdata t (show s) file_id (nat o)) open'
  unfolding handle_dwdata show_num
  Filed-announce t o [] h = tt
  Filed-announce t o (p ∷ open') h = elim (Bool-cases (nat_beq p o)) [
    | inl same ↦ (
      rw ((nat_beq_iff p o).0 same) (lookup-insert_self (key_of s o) _ t.pending_chunks),
      Filed-announce t o open' h.1,
    )
    | inr other ↦ (
      lookup-insert_ne (key_of s o) (key_of s p) _ t.pending_chunks (key_of-ne s o p other) ∙ h.0,
      Filed-announce t o open' h.1,
    )
  ]

  Filed-arrive :
      (t : Transfer) (o : ℕ) (open' : List ℕ) (sessions : Dict Text DownloadSession)
      → Filed t open'
      → Filed
          (record t {
            pending_chunks = erase (key_of s o) t.pending_chunks;
            download_sessions = sessions;
          })
          (remove o open')
  Filed-arrive t o [] sessions h = tt
  Filed-arrive t o (p ∷ open') sessions h = elim (Bool-cases (nat_beq p o)) [
    | inl same ↦ rw same (Filed-arrive t o open' sessions h.1)
    | inr other ↦ rw other (
      lookup-erase_ne (key_of s o) (key_of s p) t.pending_chunks (key_of-ne s o p other) ∙ h.0,
      Filed-arrive t o open' sessions h.1,
    )
  ]

  -- The file's session, with its chunks, total and name.
  record Holds (t : Transfer) (chunks : Dict ℕ Bytes) (total : Num) (name : Text) : Type 0 where
    session : DownloadSession
    found : lookup file_id t.download_sessions ≡ some session
    chunks_are : session.chunks ≡ chunks
    total_is : session.total ≡ total
    name_is : session.filename ≡ name

  receive-Holds :
      (sent : List Sent) (t : Transfer) (open' : List ℕ) {chunks : Dict ℕ Bytes} {total : Num}
      {name : Text}
      → s < 2 ^ 53
      → IsAnnounced open' sent
      → Filed t open'
      → Holds t chunks total name
      → Holds (receive file_id s t sent) (collect chunks (arrivals sent)) total name
  unfolding receive collect handle_dwdata show_num
  receive-Holds [] t open' hs a f h = h
  receive-Holds (announced o ∷ sent) t open' hs a f h =
      receive-Holds sent (handle_dwdata t (show s) file_id (nat o)) (o ∷ open') hs a
        (lookup-insert_self (key_of s o) _ t.pending_chunks, Filed-announce t o open' f)
        (record {
          session = h.session;
          found = h.found;
          chunks_are = h.chunks_are;
          total_is = h.total_is;
          name_is = h.name_is;
        })
  receive-Holds (arrived o d ∷ sent) t open' hs a f h =
      rw
        (accept_announced t file_id s o d h.session (omega arith) (omega arith)
          (Filed-contains t o open' f a.0) h.found)
        (receive-Holds sent _ (remove o open') hs a.2
          (Filed-arrive t o open' (insert file_id (add_chunk h.session o d) t.download_sessions) f)
          (record {
            session = add_chunk h.session o d;
            found = lookup-insert_self file_id _ t.download_sessions;
            chunks_are = rw h.chunks_are;
            total_is = h.total_is;
            name_is = h.name_is;
          }))

  start-Holds :
      (t : Transfer) (name : Text) (total : ℕ)
      → lookup file_id t.download_sessions ≡ none
      → Holds (handle_dwstart t file_id name (nat total)) [] (nat total) name
  unfolding handle_dwstart
  start-Holds t name total e =
      rw (e, handle_dwstart)
        (record {
          session = _;
          found = lookup-insert_self file_id _ t.download_sessions;
          chunks_are = refl;
          total_is = refl;
          name_is = refl;
        })

  finish-Holds :
      (t : Transfer) (chunks : Dict ℕ Bytes) (name : Text) (file : Bytes)
      → Holds t chunks (nat (length file)) name
      → assemble chunks ≡ file
      → (handle_dwndone t file_id ≡ (
        record t { download_sessions = erase file_id t.download_sessions },
        save_blob name file ∷ add_system_message (downloaded name) ∷ [],
      ))
  unfolding handle_dwndone finish_download
  finish-Holds t chunks name file h e = rw (
    h.found,
    handle_dwndone,
    finish_download,
    h.chunks_are,
    e,
    h.total_is,
    h.name_is,
    ltb_self (length file),
  )

-- A new download of a file that is cut into non-empty chunks: whatever the order in which the chunks
-- are announced and arrive, as long as each arrives once and behind its announcement, at the end the
-- client saves exactly the file under its name, reports the download as done and nothing as missing,
-- and its session is gone.
pub download_complete :
    (t : Transfer) (file_id name : Text) (s : ℕ) (ds : List Bytes) (sent : List Sent)
    → lookup file_id t.download_sessions ≡ none
    → s < 2 ^ 53
    → All IsFull ds
    → IsAnnounced [] sent
    → Perm (arrivals sent) (pieces 0 ds)
    → let u = receive file_id s (handle_dwstart t file_id name (nat (length (concat ds)))) sent in
      handle_dwndone u file_id ≡ (
        record u { download_sessions = erase file_id u.download_sessions },
        save_blob name (concat ds) ∷ add_system_message (downloaded name) ∷ [],
      )
download_complete t file_id name s ds sent e hs h a p =
    finish-Holds file_id s _ (collect [] (arrivals sent)) name (concat ds)
      (receive-Holds file_id s sent _ [] hs a tt (start-Holds file_id s t name _ e))
      (assemble-collect ds (arrivals sent) h p)
