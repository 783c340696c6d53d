-- ===== src/Transfer/Leave.antt =====
-- `handleLeave`: files that expire when a member leaves.
use chat_serve.Base.{
  ◌≡◌, refl, list_beq_iff, ◌&&◌, Bool, true, false, List, [], ◌∷◌, none, if◌then◌else◌, ◌===◌,
  list_eq, nat_eq, arith, Dict, lookup, keys, lookup-erase,
}
use chat_serve.Text.{Text}
use chat_serve.Transfer.State.{Transfer}
use chat_serve.Transfer.Receive.{expire_file_card, is_sender, expire_all, handle_leave}

-- What the cards of the files of `leaver` look like after the loop over `fids`.
abbrev listed : Text → List Text → Bool
listed fid [] = false
listed fid (f ∷ fids) = if f === fid then true else listed fid fids

module _ (leaver : Text) (fid : Text) where
  sender-expire_all :
      (t : Transfer) (fids : List Text)
      → lookup fid (expire_all t leaver fids).file_senders
        ≡ (if listed fid fids && is_sender t leaver fid then none else lookup fid t.file_senders)
  unfolding expire_all is_sender expire_file_card
  sender-expire_all t [] = refl
  sender-expire_all t (f ∷ fids) = ground (
    arith,
    sender-expire_all t fids,
    sender-expire_all (expire_file_card t f) fids,
    lookup-erase f fid t.file_senders,
    list_beq_iff f fid,
  )

  session-expire_all :
      (t : Transfer) (fids : List Text)
      → lookup fid (expire_all t leaver fids).download_sessions ≡ (
          if listed fid fids && is_sender t leaver fid
          then none
          else lookup fid t.download_sessions)
  unfolding expire_all is_sender expire_file_card
  session-expire_all t [] = refl
  session-expire_all t (f ∷ fids) = ground (
    arith,
    session-expire_all t fids,
    session-expire_all (expire_file_card t f) fids,
    lookup-erase f fid t.file_senders,
    lookup-erase f fid t.download_sessions,
    list_beq_iff f fid,
  )

  listed-keys : (m : Dict Text Text) → listed fid (keys m) ≡ false → lookup fid m ≡ none
  unfolding lookup
  listed-keys [] h = refl
  listed-keys ((f, s) ∷ m) h = ground (arith, listed-keys m)

-- When a member leaves, exactly the files whose uploader it is expire: their senders and their
-- download sessions are gone, and every other file keeps both.
pub handle_leave_lem :
    (t : Transfer) (leaver fid : Text)
    → (lookup fid (handle_leave t leaver).file_senders
        ≡ (if is_sender t leaver fid then none else lookup fid t.file_senders))
      × (lookup fid (handle_leave t leaver).download_sessions
          ≡ (if is_sender t leaver fid then none else lookup fid t.download_sessions))
unfolding handle_leave is_sender
handle_leave_lem t leaver fid = (
  ground (
    arith,
    sender-expire_all leaver fid t (keys t.file_senders),
    listed-keys leaver fid t.file_senders,
  ),
  ground (
    arith,
    session-expire_all leaver fid t (keys t.file_senders),
    listed-keys leaver fid t.file_senders,
  ),
)
