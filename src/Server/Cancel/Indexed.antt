-- ===== src/Server/Cancel/Indexed.antt =====
-- That the tables of transfers agree: each session of the transfers is listed for its uploader and for
-- its downloader, and nothing else is (src/chatroom/TransferManager.cpp).
use chat_serve.Base.{
  ℕ, ◌≤◌, ◌≡◌, refl, ◌∙◌, ap, Bool, true, false, List, Option, none, some, if◌then◌else◌, ◌===◌,
  nat_eq, nat_beq_iff, Dict, lookup, insert, erase, lookup-insert, lookup-erase, arith, Bool-cases,
  Option-cases, ◌⊎◌, inl, inr, subst, sym,
}
use chat_serve.Server.State.{Session, TransferSession, TransferManager}
use chat_serve.Server.Files.{push_ref}
use chat_serve.Server.Transfers.{has_offset}
use chat_serve.Server.Cancel.{refs_of, remove_session_ref, cleanup_session}
use chat_serve.Server.Cancel.Refs.{has-remove_session_ref, has-push_ref}

-- Whether a session of the transfers is there and its uploader or downloader has the address
abbrev pub is_party : (TransferSession → Session) → ℕ → Option TransferSession → Bool
is_party who a none = false
is_party who a (some ts) = (who ts).address === a

-- The table lists, for every address, just the ids of its transfers.
unfoldable pub Indexes :
    (TransferSession → Session) → Dict ℕ TransferSession → Dict ℕ (List ℕ) → Type 0
Indexes who sessions refs =
    (j a : ℕ) → has_offset j (refs_of a refs) ≡ is_party who a (lookup j sessions)

pub record IsIndexed (tm : TransferManager) : Type 0 where
  pub up : Indexes (λ ts. ts.uploader) tm.sessions tm.uploader_sessions
  pub down : Indexes (λ ts. ts.downloader) tm.sessions tm.downloader_sessions
  pub fresh : (j : ℕ) → tm.next_session_id ≤ j → lookup j tm.sessions ≡ none

module _ (who : TransferSession → Session) (sessions : Dict ℕ TransferSession)
    (refs : Dict ℕ (List ℕ)) where
  -- A transfer ends
  erase-Indexes :
      (sid : ℕ) (ts : TransferSession)
      → lookup sid sessions ≡ some ts
      → Indexes who sessions refs
      → Indexes who (erase sid sessions) (remove_session_ref (who ts).address sid refs)
  unfolding Indexes
  erase-Indexes sid ts e h j a = elim (Bool-cases (j === sid)) [
    | inl same ↦
        let q = ap (λ x. lookup x sessions) ((nat_beq_iff j sid).0 same) in
        ground (
          arith,
          h j a,
          e,
          q,
          same,
          lookup-erase sid j sessions,
          has-remove_session_ref j (who ts).address a sid refs,
        )
    | inr other ↦ ground (
      arith,
      h j a,
      other,
      lookup-erase sid j sessions,
      has-remove_session_ref j (who ts).address a sid refs,
    )
  ]

  -- A transfer begins
  pub push-Indexes :
      (sid : ℕ) (ts : TransferSession)
      → lookup sid sessions ≡ none
      → Indexes who sessions refs
      → Indexes who (insert sid ts sessions) (push_ref (who ts).address sid refs)
  unfolding Indexes
  push-Indexes sid ts e h j a = elim (Bool-cases (j === sid)) [
    | inl same ↦
        let q = ap (λ x. lookup x sessions) ((nat_beq_iff j sid).0 same) in
        ground (
          arith,
          h j a,
          e,
          q,
          same,
          lookup-insert sid j ts sessions,
          has-push_ref j (who ts).address a sid refs,
        )
    | inr other ↦ ground (
      arith,
      h j a,
      other,
      lookup-insert sid j ts sessions,
      has-push_ref j (who ts).address a sid refs,
    )
  ]

  -- A transfer goes on
  pub insert-Indexes :
      (sid : ℕ) (ts ts' : TransferSession)
      → lookup sid sessions ≡ some ts
      → (who ts').address ≡ (who ts).address
      → Indexes who sessions refs
      → Indexes who (insert sid ts' sessions) refs
  unfolding Indexes
  insert-Indexes sid ts ts' e same_who h j a = elim (Bool-cases (j === sid)) [
    | inl same ↦
        let q = ap (λ x. lookup x sessions) ((nat_beq_iff j sid).0 same) in
        ground (arith, h j a, e, q, same, same_who, lookup-insert sid j ts' sessions)
    | inr other ↦ ground (arith, h j a, other, lookup-insert sid j ts' sessions)
  ]

  -- All transfers of an address have ended, and its list goes.
  pub erase_key-Indexes :
      (key : ℕ)
      → ((j : ℕ) → is_party who key (lookup j sessions) ≡ false)
      → Indexes who sessions refs
      → Indexes who sessions (erase key refs)
  unfolding Indexes
  erase_key-Indexes key none_left h j a = elim (Bool-cases (key === a)) [
    | inl same ↦
        let q = ap (λ x. is_party who x (lookup j sessions)) ((nat_beq_iff key a).0 same) in
        ground (arith, q, none_left j, same, lookup-erase key a refs)
    | inr other ↦ ground (arith, h j a, other, lookup-erase key a refs)
  ]

abbrev ended : ℕ → TransferSession → TransferManager → TransferManager
ended sid ts tm = record tm {
  uploader_sessions = remove_session_ref ts.uploader.address sid tm.uploader_sessions;
  downloader_sessions = remove_session_ref ts.downloader.address sid tm.downloader_sessions;
  sessions = erase sid tm.sessions;
}

cleanup_session_cases :
    (sid : ℕ) (tm : TransferManager)
    → ((lookup sid tm.sessions ≡ none) × (cleanup_session sid tm ≡ tm))
      ⊎ ((ts : TransferSession) × (lookup sid tm.sessions ≡ some ts)
          × (cleanup_session sid tm ≡ ended sid ts tm))
unfolding cleanup_session
cleanup_session_cases sid tm = elim (Option-cases (lookup sid tm.sessions)) [
  | inl e ↦ inl (e, rw (e, cleanup_session) refl)
  | inr (ts, e) ↦ inr (ts, e, rw (e, cleanup_session) refl)
]

pub lookup-cleanup_session :
    (sid j : ℕ) (tm : TransferManager)
    → lookup j (cleanup_session sid tm).sessions
      ≡ (if sid === j then none else lookup j tm.sessions)
lookup-cleanup_session sid j tm = elim (cleanup_session_cases sid tm) [
  | inl (e, k) ↦
      let same =
        λ (b : (sid === j) ≡ true). ap (λ x. lookup x tm.sessions) ((nat_beq_iff sid j).0 b) in
      ap (λ t. lookup j t.sessions) k ∙ ground (arith, e, same)
  | inr (ts, e, k) ↦ ap (λ t. lookup j t.sessions) k ∙ lookup-erase sid j tm.sessions
]

pub cleanup_session-IsIndexed :
    (sid : ℕ) (tm : TransferManager) → IsIndexed tm → IsIndexed (cleanup_session sid tm)
cleanup_session-IsIndexed sid tm h = elim (cleanup_session_cases sid tm) [
  | inl (e, k) ↦ subst IsIndexed (sym k) h
  | inr (ts, e, k) ↦ subst IsIndexed (sym k) (record {
    up = erase-Indexes (λ ts. ts.uploader) tm.sessions tm.uploader_sessions sid ts e h.up;
    down = erase-Indexes (λ ts. ts.downloader) tm.sessions tm.downloader_sessions sid ts e h.down;
    fresh = λ j l. ground (arith, h.fresh j l, lookup-erase sid j tm.sessions);
  })
]
