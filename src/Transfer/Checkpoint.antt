-- ===== src/Transfer/Checkpoint.antt =====
-- `resumeDownload`: its loop, and the session and the request that it leaves.
use chat_serve.Base.{
  ◌===◌, ◌↔◌, ◌⊎◌, list_beq_iff, subst, Bool-cases, ℕ, zero, suc, ◌+◌, ◌≤◌, ◌<◌, ◌≡◌, refl, ◌∙◌,
  ◌≢◌, Bool, true, false, not, [], ◌∷◌, ◌++◌, none, some, if◌then◌else◌, leb, ltb, nat_eq, list_eq,
  arith, All, Dict, lookup, insert, lookup-insert_self, lookup-insert_ne, keep_entries, ge_num,
  length, Option-cases, inl, inr,
}
use chat_serve.Text.{Text, lit}
use chat_serve.Text.Number.{show}
use chat_serve.Transfer.Frame.{Bytes}
use chat_serve.Transfer.State.{DownloadSession, Transfer, send_command, Step}
use chat_serve.Transfer.Download.{
  find_checkpoint, set_paused, resume_at, resume_download, start_download, finish_download,
}
use chat_serve.Transfer.Assembly.{IsFull}

-- `b` is the end of a run of chunks that begins at `a`, each behind the one before.
pub data Run (chunks : Dict ℕ Bytes) : ℕ → ℕ → Type 0 where
  here : {a : ℕ} → Run chunks a a
  next :
      {a b : ℕ} (d : Bytes)
      → lookup a chunks ≡ some d
      → Run chunks (a + length d) b
      → Run chunks a b

-- How many chunks begin at `k` or behind.
count_from : ℕ → Dict ℕ Bytes → ℕ
count_from k [] = 0
count_from k ((o, _) ∷ m) = if leb k o then suc (count_from k m) else count_from k m

count_from-le : (k : ℕ) (m : Dict ℕ Bytes) → count_from k m ≤ length m
unfolding count_from
count_from-le k [] = omega arith
count_from-le k ((o, d) ∷ m) = ground (arith, count_from-le k m)

count_from_mono : (j k : ℕ) (m : Dict ℕ Bytes) → k ≤ j → count_from j m ≤ count_from k m
unfolding count_from
count_from_mono j k [] h = omega arith
count_from_mono j k ((o, d) ∷ m) h = ground (arith, count_from_mono j k m)

count_from_drops :
    (j k : ℕ) (m : Dict ℕ Bytes) (c : Bytes)
    → lookup k m ≡ some c
    → k < j
    → count_from j m < count_from k m
unfolding count_from lookup
count_from_drops j k [] c e h = cc
count_from_drops j k ((o, d) ∷ m) c e h =
    ground (arith, count_from_mono j k m, count_from_drops j k m c)

All-lookup :
    (k : ℕ) (m : Dict ℕ Bytes) (c : Bytes)
    → All (λ c. IsFull c.1) m
    → lookup k m ≡ some c
    → IsFull c
unfolding lookup
All-lookup k [] c h e = cc
All-lookup k ((o, d) ∷ m) c h e = ground (arith, All-lookup k m c h.1)

-- With as many rounds as there are chunks from `k` on, and one more, the loop finds the first gap.
find_checkpoint_lem :
    (rounds k : ℕ) (m : Dict ℕ Bytes)
    → All (λ c. IsFull c.1) m
    → count_from k m < rounds
    → (c : ℕ) × (find_checkpoint rounds m k ≡ some c) × Run m k c × (lookup c m ≡ none)
unfolding find_checkpoint
find_checkpoint_lem zero k m h r = absurd (omega arith)
find_checkpoint_lem (suc rounds) k m h r = elim (Option-cases (lookup k m)) [
  | inl gap ↦ (k, rw (gap, find_checkpoint), here, gap)
  | inr (d, found) ↦
      let full = All-lookup k m d h found in
      let drops = count_from_drops (k + length d) k m d found (omega arith) in
      let (c, e, run, gap) = find_checkpoint_lem rounds (k + length d) m h (omega arith) in
      (c, rw (found, find_checkpoint) e, next d found run, gap)
]

-- The entries in front of the checkpoint.
abbrev pub before : ℕ → Dict ℕ Bytes → Dict ℕ Bytes
before c = keep_entries λ o _. not (leb c o)

abbrev pub download_command : Text → ℕ → Text
download_command file_id c =
    lit "DOWNLOAD|" ++ (file_id ++ (if ltb 0 c then lit "|" ++ show c else []))

-- What resuming an incomplete session leaves, and what it asks of the server.
pub record Resumes (t : Transfer) (file_id : Text) (session : DownloadSession) (c : ℕ) (r : Step)
    : Type 0 where
  pub sessions :
      (j : Text)
      → lookup j r.0.download_sessions ≡ (
          if file_id === j
          then some
              (record session { chunks = before c session.chunks; received = c; paused = false })
          else lookup j t.download_sessions)
  pub asks : r.1 ≡ send_command (download_command file_id c) ∷ []

pub lookup-set_paused :
    (value : Bool) (file_id : Text) (session : DownloadSession) (m : Dict Text DownloadSession)
    → lookup file_id m ≡ some session
    → lookup file_id (set_paused value file_id m) ≡ some (record session { paused = value })
unfolding set_paused
lookup-set_paused value file_id session m e = rw (e, set_paused) (lookup-insert_self file_id _ m)

pub lookup-set_paused_ne :
    (value : Bool) (file_id j : Text) (m : Dict Text DownloadSession)
    → file_id ≢ j
    → lookup j (set_paused value file_id m) ≡ lookup j m
unfolding set_paused
lookup-set_paused_ne value file_id j m h = elim (Option-cases (lookup file_id m)) [
  | inl e ↦ rw (e, set_paused)
  | inr (session, e) ↦ rw (e, set_paused) (lookup-insert_ne file_id j _ m h)
]

-- The sessions after one of them was put back and is not paused.
lookup-resumed :
    (j : Text) (b : Bool) (file_id : Text) (session : DownloadSession)
    (m : Dict Text DownloadSession)
    → (b ≡ true) ↔ (file_id ≡ j)
    → lookup j (set_paused false file_id (insert file_id session m))
      ≡ (if b then some (record session { paused = false }) else lookup j m)
lookup-resumed j true file_id session m h =
    subst
      (λ k.
        lookup k (set_paused false file_id (insert file_id session m))
        ≡ some (record session { paused = false }))
      (h.0 refl) (lookup-set_paused false file_id session _ (lookup-insert_self file_id session m))
lookup-resumed j false file_id session m h =
    let ne : file_id ≢ j = λ e. absurd (ground (arith, h.1 e)) in
    lookup-set_paused_ne false file_id j _ ne ∙ lookup-insert_ne file_id j session m ne

resume_at-Resumes :
    (t : Transfer) (file_id : Text) (session : DownloadSession) (c : ℕ)
    → ge_num c session.total ≡ false
    → Resumes t file_id session c (resume_at t file_id session c)
unfolding start_download resume_at
resume_at-Resumes t file_id session c h =
    rw (h, resume_at)
      (record {
        sessions = λ j.
            lookup-resumed j (file_id === j) file_id _ t.download_sessions (list_beq_iff file_id j);
        asks = refl;
      })

-- What resuming the session returns, with the end `c` of the chunks that follow one another from 0.
abbrev pub Returns : (t : Transfer) (file_id : Text) (session : DownloadSession) → Type 0
Returns t file_id session =
    (c : ℕ) × (r : Step) × Run session.chunks 0 c
    × (lookup c session.chunks ≡ none)
    × (resume_download (suc (length session.chunks)) t file_id ≡ some r)
    × (((ge_num c session.total ≡ true) × (r ≡ finish_download t file_id))
        ⊎ ((ge_num c session.total ≡ false) × Resumes t file_id session c r))

-- Resuming a download none of whose chunks is empty always returns, after at most one round of its
-- loop for each chunk and one more. With `c` the end of the chunks that follow one another from 0
-- on without a gap: if `c` reaches the total, the download is finished as at its end; if not, the
-- session keeps just the chunks in front of `c`, counts `c` bytes, is not paused, no other session
-- is touched, and the server is asked for the file from `c` on.
pub resume_download_lem :
    (t : Transfer) (file_id : Text) (session : DownloadSession)
    → lookup file_id t.download_sessions ≡ some session
    → All (λ c. IsFull c.1) session.chunks
    → Returns t file_id session
unfolding resume_at resume_download
resume_download_lem t file_id session e full =
    let (c, ends, run, gap) =
      find_checkpoint_lem (suc (length session.chunks)) 0 session.chunks full
        (omega (arith, count_from-le 0 session.chunks)) in
    (
      c,
      resume_at t file_id session c,
      run,
      gap,
      rw (e, resume_download, ends),
      elim (Bool-cases (ge_num c session.total)) [
        | inl all ↦ inl (all, rw all)
        | inr part ↦ inr (part, resume_at-Resumes t file_id session c part)
      ],
    )
