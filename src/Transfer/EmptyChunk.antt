-- ===== src/Transfer/EmptyChunk.antt =====
-- `resumeDownload` on a download that holds an empty chunk.
use native.Mathlib.Nat.{add-zero}
use chat_serve.Base.{
  Bool-cases, ℕ, zero, suc, ◌+◌, ◌^◌, ◌<◌, ◌≡◌, refl, [], none, some, nat_beq, nat_eq, list_eq,
  arith, Dict, lookup, insert, lookup-insert, lookup-insert_self, length, nat, inl, inr,
}
use chat_serve.Text.{Text}
use chat_serve.Transfer.Frame.{Bytes, build_binary_frame}
use chat_serve.Transfer.State.{DownloadSession, Transfer}
use chat_serve.Transfer.Download.{find_checkpoint, resume_download}
use chat_serve.Transfer.Receive.{handle_binary}
use chat_serve.Transfer.Keys.{key_of}
use chat_serve.Transfer.Exchange.{announcement, accept_announced}
use chat_serve.Transfer.Checkpoint.{Run, here, next}

stuck_at :
    (rounds o : ℕ) (m : Dict ℕ Bytes) → lookup o m ≡ some [] → find_checkpoint rounds m o ≡ none
unfolding find_checkpoint
stuck_at zero o m e = refl
stuck_at (suc rounds) o m e = rw (e, find_checkpoint, add-zero) (stuck_at rounds o m e)

stuck_behind :
    (rounds a o : ℕ) (m : Dict ℕ Bytes)
    → Run m a o
    → find_checkpoint rounds (insert o [] m) a ≡ none
unfolding find_checkpoint
stuck_behind zero a o m r = refl
stuck_behind (suc rounds) a o m here = stuck_at (suc rounds) o _ (lookup-insert_self o [] m)
stuck_behind (suc rounds) a o m (next d e r) = elim (Bool-cases (nat_beq o a)) [
  | inl same ↦ stuck_at (suc rounds) a (insert o [] m) (rw (lookup-insert, same))
  | inr other ↦
      rw (lookup-insert, other, e, find_checkpoint) (stuck_behind rounds (a + length d) o m r)
]

-- An empty chunk that is announced is accepted like any other, its session id and offset being
-- below 2 ^ 53. If it lies at the end of a run of chunks from 0 on, resuming that download never
-- returns: no number of rounds is enough for its loop.
pub resume_download_stuck :
    (t : Transfer) (file_id : Text) (session : DownloadSession) (s o rounds : ℕ)
    → lookup file_id t.download_sessions ≡ some session
    → lookup (key_of s o) t.pending_chunks ≡ some (announcement file_id s o)
    → s < 2 ^ 53
    → o < 2 ^ 53
    → Run session.chunks 0 o
    → resume_download rounds (handle_binary t (build_binary_frame (nat s) (nat o) [])).0 file_id
      ≡ none
unfolding resume_download
resume_download_stuck t file_id session s o rounds e k hs ho run = rw (
  accept_announced t file_id s o [] session (omega arith) (omega arith) k e,
  lookup-insert_self,
  resume_download,
  stuck_behind rounds 0 o session.chunks run,
)
