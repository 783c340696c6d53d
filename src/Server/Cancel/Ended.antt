-- ===== src/Server/Cancel/Ended.antt =====
-- What the end of a session leaves of the transfers of its room (src/chatroom/TransferManager.cpp).
use chat_serve.Base.{
  ℕ, ◌≡◌, refl, ◌∙◌, ap, subst, sym, false, ◌||◌, List, [], ◌∷◌, Option, none, some, if◌then◌else◌,
  nat_eq, list_eq, lookup, erase, arith, Option-cases, inl, inr,
}
use chat_serve.Text.{Text}
use chat_serve.Server.State.{Session, ◌is◌, TransferSession, TransferManager}
use chat_serve.Server.Transfers.{has_offset}
use chat_serve.Server.Cancel.{
  refs_of, unregister_file, unregister_files, cleanup_session, cancel_sessions, cancel_by_session,
}
use chat_serve.Server.Cancel.Indexed.{
  is_party, Indexes, IsIndexed, erase_key-Indexes, lookup-cleanup_session,
  cleanup_session-IsIndexed,
}

-- The manager less its files
abbrev pub transfers : TransferManager → TransferManager
transfers tm = record tm { registrations = []; uploader_files = [] }

pub transfers-unregister_file :
    (f : Text) (tm : TransferManager) → transfers (unregister_file f tm) ≡ transfers tm
unfolding unregister_file
transfers-unregister_file f tm = elim (Option-cases (lookup f tm.registrations)) [
  | inl e ↦ rw (e, unregister_file) refl
  | inr (reg, e) ↦ rw (e, unregister_file) refl
]

transfers-unregister_files :
    (fs : List Text) (tm : TransferManager) → transfers (unregister_files fs tm) ≡ transfers tm
unfolding unregister_files
transfers-unregister_files [] tm = refl
transfers-unregister_files (f ∷ fs) tm =
    transfers-unregister_files fs (unregister_file f tm) ∙ transfers-unregister_file f tm

pub IsIndexed-transfers : (tm : TransferManager) → IsIndexed tm → IsIndexed (transfers tm)
IsIndexed-transfers tm h = record { up = h.up; down = h.down; fresh = h.fresh }

pub transfers-IsIndexed : (tm : TransferManager) → IsIndexed (transfers tm) → IsIndexed tm
transfers-IsIndexed tm h = record { up = h.up; down = h.down; fresh = h.fresh }

cancel_sessions-head :
    (sid : ℕ) (sids : List ℕ) (tm : TransferManager)
    → (cancel_sessions (sid ∷ sids) tm).0 ≡ (cancel_sessions sids (cleanup_session sid tm)).0
unfolding cancel_sessions
cancel_sessions-head sid sids tm = elim (Option-cases (lookup sid tm.sessions)) [
  | inl e ↦ rw (e, cancel_sessions) refl
  | inr (ts, e) ↦ rw (e, cancel_sessions) refl
]

pub cancel_sessions-IsIndexed :
    (sids : List ℕ) (tm : TransferManager) → IsIndexed tm → IsIndexed (cancel_sessions sids tm).0
unfolding cancel_sessions
cancel_sessions-IsIndexed [] tm h = h
cancel_sessions-IsIndexed (sid ∷ sids) tm h =
    subst IsIndexed (sym (cancel_sessions-head sid sids tm))
      (cancel_sessions-IsIndexed sids _ (cleanup_session-IsIndexed sid tm h))

lookup-cancel_sessions :
    (sids : List ℕ) (j : ℕ) (tm : TransferManager)
    → lookup j (cancel_sessions sids tm).0.sessions
      ≡ (if has_offset j sids then none else lookup j tm.sessions)
unfolding cancel_sessions
lookup-cancel_sessions [] j tm = refl
lookup-cancel_sessions (sid ∷ sids) j tm =
    ap (λ t. lookup j t.sessions) (cancel_sessions-head sid sids tm)
    ∙ (lookup-cancel_sessions sids j (cleanup_session sid tm)
        ∙ ground (arith, lookup-cleanup_session sid j tm))

-- What is left of a transfer when a session has ended
abbrev pub left_of : Session → Option TransferSession → Option TransferSession
left_of sess none = none
left_of sess (some ts) = if ts.uploader is sess || ts.downloader is sess then none else some ts

none_left :
    (who : TransferSession → Session) (a : ℕ) (o : Option TransferSession)
    → is_party who a (if is_party who a o then none else o) ≡ false
none_left who a none = refl
none_left who a (some ts) = ground arith

none_left_down :
    (sess : Session) (o : Option TransferSession)
    → is_party (λ ts. ts.downloader) sess.address (left_of sess o) ≡ false
none_left_down sess none = refl
none_left_down sess (some ts) = ground arith

left_of-parties :
    (sess : Session) (o : Option TransferSession)
    → (let rest = if is_party (λ ts. ts.uploader) sess.address o then none else o in
        if is_party (λ ts. ts.downloader) sess.address rest then none else rest)
      ≡ left_of sess o
left_of-parties sess none = refl
left_of-parties sess (some ts) = ground arith

module _ (sess : Session) (tm : TransferManager) (h : IsIndexed tm) where
  abbrev without_files : TransferManager
  without_files = unregister_files (refs_of sess.address tm.uploader_files) tm

  abbrev without_uploads : TransferManager
  without_uploads =
      (cancel_sessions (refs_of sess.address without_files.uploader_sessions) without_files).0

  abbrev without_list : TransferManager
  without_list = record without_uploads {
    uploader_sessions = erase sess.address without_uploads.uploader_sessions;
  }

  abbrev without_downloads : TransferManager
  without_downloads =
      (cancel_sessions (refs_of sess.address without_list.downloader_sessions) without_list).0

  without_files-IsIndexed : IsIndexed without_files
  without_files-IsIndexed = transfers-IsIndexed without_files (
      subst IsIndexed (sym (transfers-unregister_files (refs_of sess.address tm.uploader_files) tm))
        (IsIndexed-transfers tm h))

  without_uploads-IsIndexed : IsIndexed without_uploads
  without_uploads-IsIndexed = cancel_sessions-IsIndexed _ _ without_files-IsIndexed

  lookup-without_uploads :
      (j : ℕ)
      → lookup j without_uploads.sessions ≡ (
          if is_party (λ ts. ts.uploader) sess.address (lookup j tm.sessions)
          then none
          else lookup j tm.sessions)
  unfolding Indexes
  lookup-without_uploads j =
      let kept =
        ap (λ t. lookup j t.sessions)
          (transfers-unregister_files (refs_of sess.address tm.uploader_files) tm) in
      lookup-cancel_sessions (refs_of sess.address without_files.uploader_sessions) j without_files
      ∙ rw (without_files-IsIndexed.up j sess.address, kept) refl

  without_list-IsIndexed : IsIndexed without_list
  without_list-IsIndexed = record {
    up =
        erase_key-Indexes (λ ts. ts.uploader) without_uploads.sessions
          without_uploads.uploader_sessions sess.address
          (λ j.
            ap (is_party (λ ts. ts.uploader) sess.address) (lookup-without_uploads j)
            ∙ none_left (λ ts. ts.uploader) sess.address (lookup j tm.sessions))
          without_uploads-IsIndexed.up;
    down = without_uploads-IsIndexed.down;
    fresh = without_uploads-IsIndexed.fresh;
  }

  without_downloads-IsIndexed : IsIndexed without_downloads
  without_downloads-IsIndexed = cancel_sessions-IsIndexed _ _ without_list-IsIndexed

  lookup-without_downloads :
      (j : ℕ) → lookup j without_downloads.sessions ≡ left_of sess (lookup j tm.sessions)
  unfolding Indexes
  lookup-without_downloads j =
      lookup-cancel_sessions (refs_of sess.address without_list.downloader_sessions) j without_list
      ∙ (rw (without_list-IsIndexed.down j sess.address, lookup-without_uploads j)
          (left_of-parties sess (lookup j tm.sessions)))

  pub cancel_by_session-IsIndexed : IsIndexed (cancel_by_session sess tm).0
  unfolding cancel_by_session
  cancel_by_session-IsIndexed = record {
    up = without_downloads-IsIndexed.up;
    down =
        erase_key-Indexes (λ ts. ts.downloader) without_downloads.sessions
          without_downloads.downloader_sessions sess.address
          (λ j.
            ap (is_party (λ ts. ts.downloader) sess.address) (lookup-without_downloads j)
            ∙ none_left_down sess (lookup j tm.sessions))
          without_downloads-IsIndexed.down;
    fresh = without_downloads-IsIndexed.fresh;
  }

  -- When a session ends, of the transfers of its room just those are gone in which it was the uploader
  -- or the downloader, and every other is as it was. The tables of the transfers agree with them.
  pub cancel_by_session_lem :
      (j : ℕ)
      → lookup j (cancel_by_session sess tm).0.sessions ≡ left_of sess (lookup j tm.sessions)
  unfolding cancel_by_session
  cancel_by_session_lem j = lookup-without_downloads j
