-- ===== src/Server/Cancel/Kept.antt =====
-- Every operation on the transfers of a room keeps their tables in agreement
-- (src/chatroom/TransferManager.cpp).
use chat_serve.Base.{
  ℕ, zero, suc, ◌+◌, ◌≡◌, refl, ◌∙◌, ap, subst, sym, false, ◌||◌, not, List, [], ◌∷◌, Option, none,
  some, leb, ◌===◌, nat_eq, nat_beq_iff, list_eq, lookup, insert, lookup-insert, arith, ltb, length,
  Option-cases, Bool-cases, ◌⊎◌, inl, inr, min, ◌/◌, ◌%◌, ◌-◌,
}
use chat_serve.Text.{Text}
use chat_serve.Server.Files.{Draw, create_unique_file_id, register_file, push_ref}
use chat_serve.Server.State.{Session, ◌is◌, Memory, TransferSession, TransferManager}
use chat_serve.Server.Transfers.{
  has_offset, has_window_space, is_complete, chunk_size_for_offset, read_word, header_size,
  window_size, chunk_bytes, try_send_next_request, initial_requests, gather, NextRequest,
  new_transfer, start_transfer, take_chunk, put_chunk, handle_chunk_data,
}
use chat_serve.Server.Cancel.{
  remove_all, take_ack, handle_ack, cancel_session, cancel_file, cancel_file_sessions,
  is_session_of, find_session_id, refs_of,
}
use chat_serve.Server.Cancel.Indexed.{
  Indexes, IsIndexed, push-Indexes, insert-Indexes, cleanup_session-IsIndexed,
}
use chat_serve.Server.Cancel.Ended.{
  transfers, transfers-unregister_file, transfers-IsIndexed, IsIndexed-transfers,
  cancel_sessions-IsIndexed,
}
use chat_serve.Server.Numbers.{word_limit}

abbrev parties : TransferSession → Session × Session
parties ts = (ts.uploader, ts.downloader)

try_send_next_request-parties :
    (ts : TransferSession) → parties (try_send_next_request ts).0 ≡ parties ts
unfolding try_send_next_request
try_send_next_request-parties ts =
    elim (Bool-cases (leb ts.filesize ts.next_req_offset || not (has_window_space ts))) [
      | inl c ↦ rw (c, try_send_next_request) refl
      | inr c ↦ rw (c, try_send_next_request) refl
    ]

gather-parties :
    (next : TransferSession → TransferSession × List NextRequest) (ts : TransferSession)
    (first : TransferSession × Option NextRequest)
    → parties first.0 ≡ parties ts
    → ((t : TransferSession) → parties (next t).0 ≡ parties t)
    → parties (gather next first).0 ≡ parties ts
gather-parties next ts (t, none) e h = e
gather-parties next ts (t, some r) e h = h t ∙ e

initial_requests-parties :
    (n : ℕ) (ts : TransferSession) → parties (initial_requests n ts).0 ≡ parties ts
unfolding initial_requests
initial_requests-parties zero ts = refl
initial_requests-parties (suc n) ts =
    gather-parties (initial_requests n) ts (try_send_next_request ts)
      (try_send_next_request-parties ts) (initial_requests-parties n)

-- A transfer goes on under its id
put-IsIndexed :
    (sid : ℕ) (ts ts' : TransferSession) (tm : TransferManager)
    → lookup sid tm.sessions ≡ some ts
    → parties ts' ≡ parties ts
    → IsIndexed tm
    → IsIndexed (record tm { sessions = insert sid ts' tm.sessions })
put-IsIndexed sid ts ts' tm e same h = record {
  up =
      insert-Indexes (λ t. t.uploader) tm.sessions tm.uploader_sessions sid ts ts' e
        (ap (λ p. p.0.address) same) h.up;
  down =
      insert-Indexes (λ t. t.downloader) tm.sessions tm.downloader_sessions sid ts ts' e
        (ap (λ p. p.1.address) same) h.down;
  fresh = λ j l. elim (Bool-cases (sid === j)) [
    | inl at ↦
        let q = ap (λ x. lookup x tm.sessions) ((nat_beq_iff sid j).0 at) in
        ground (arith, q, e, h.fresh j l)
    | inr away ↦ ground (arith, away, h.fresh j l, lookup-insert sid j ts' tm.sessions)
  ];
}

-- What has become of a transfer, if anything has, is between the same two.
abbrev KeepsParties : {R : Type 0} → TransferSession → Option (TransferSession × R) → Type 0
KeepsParties ts none = Unit
KeepsParties ts (some (ts', r)) = parties ts' ≡ parties ts

take_chunk-KeepsParties :
    (from : Session) (sid off size : ℕ) (ts : TransferSession)
    → KeepsParties ts (take_chunk from sid off size ts)
unfolding take_chunk
take_chunk-KeepsParties from sid off size ts =
    elim (Bool-cases (
      not (ts.uploader is from)
      || leb ts.filesize off
      || not (size === chunk_size_for_offset ts off)
      || has_offset off ts.pending_acks)) [
        | inl c ↦ rw (c, take_chunk) tt
        | inr c ↦
            rw (c, take_chunk)
              (try_send_next_request-parties (record ts {
                pending_acks = off ∷ ts.pending_acks;
                total_received = (ts.total_received + size) % word_limit;
              }))
      ]

take_ack-KeepsParties :
    (from : Session) (offset : ℕ) (ts : TransferSession) → KeepsParties ts (take_ack from offset ts)
unfolding take_ack
take_ack-KeepsParties from offset ts =
    let acked = record ts { pending_acks = remove_all (λ o. o === offset) ts.pending_acks } in
    elim (Bool-cases (not (ts.downloader is from) || not (has_offset offset ts.pending_acks))) [
      | inl c ↦ rw (c, take_ack) tt
      | inr c ↦ elim (Bool-cases (is_complete acked)) [
        | inl d ↦ rw (c, take_ack, d) refl
        | inr d ↦ rw (c, take_ack, d) (try_send_next_request-parties acked)
      ]
    ]

put_chunk-IsIndexed :
    (from : Session) (sid off size : ℕ) (tm : TransferManager)
    → IsIndexed tm
    → IsIndexed (put_chunk from sid off size tm).0
unfolding put_chunk
put_chunk-IsIndexed from sid off size tm h = elim (Option-cases (lookup sid tm.sessions)) [
  | inl e ↦ rw (e, put_chunk) h
  | inr (ts, e) ↦
      let k = take_chunk-KeepsParties from sid off size ts in
      elim (Option-cases (take_chunk from sid off size ts)) [
        | inl l ↦ rw (e, put_chunk, l) h
        | inr ((ts', r), l) ↦
            rw (e, put_chunk, l) (put-IsIndexed sid ts ts' tm e (subst (KeepsParties ts) l k) h)
      ]
]

pub handle_ack-IsIndexed :
    (from : Session) (sid offset : ℕ) (tm : TransferManager)
    → IsIndexed tm
    → IsIndexed (handle_ack from sid offset tm).0
unfolding handle_ack
handle_ack-IsIndexed from sid offset tm h = elim (Option-cases (lookup sid tm.sessions)) [
  | inl e ↦ rw (e, handle_ack) h
  | inr (ts, e) ↦
      let k = take_ack-KeepsParties from offset ts in
      elim (Option-cases (take_ack from offset ts)) [
        | inl l ↦ rw (e, handle_ack, l) h
        | inr ((ts', r), l) ↦
            let put = put-IsIndexed sid ts ts' tm e (subst (KeepsParties ts) l k) h in
            elim (Bool-cases r.downloader_done) [
              | inl d ↦ rw (e, handle_ack, l, d) (cleanup_session-IsIndexed sid _ put)
              | inr d ↦ rw (e, handle_ack, l, d) put
            ]
      ]
]

pub handle_chunk_data-IsIndexed :
    (from : Session) (bytes : List ℕ) (tm : TransferManager)
    → IsIndexed tm
    → IsIndexed (handle_chunk_data from bytes tm).0
unfolding handle_chunk_data
handle_chunk_data-IsIndexed from bytes tm h =
    let size = read_word 4 16 bytes in
    elim (Bool-cases
      (ltb (length bytes) header_size || not (length bytes === header_size + size))) [
        | inl c ↦ rw (c, handle_chunk_data) h
        | inr c ↦
            rw (c, handle_chunk_data)
              (put_chunk-IsIndexed from (read_word 8 0 bytes) (read_word 8 8 bytes) size tm h)
      ]

-- Files do not matter.
from_transfers :
    (tm tm' : TransferManager) → transfers tm' ≡ transfers tm → IsIndexed tm → IsIndexed tm'
from_transfers tm tm' e h =
    transfers-IsIndexed tm' (subst IsIndexed (sym e) (IsIndexed-transfers tm h))

List-cases {ℓ} :
    {A : Type ℓ} → (xs : List A) → (xs ≡ []) ⊎ ((a : A) × (ys : List A) × (xs ≡ a ∷ ys))
List-cases [] = inl refl
List-cases (a ∷ ys) = inr (a, ys, refl)

pub register_file-IsIndexed :
    (draws : ℕ → Draw) (name : Text) (size : ℕ) (up : Session) (tm : TransferManager)
    → IsIndexed tm
    → IsIndexed (register_file draws name size up tm).0
unfolding register_file
register_file-IsIndexed draws name size up tm h = elim (Bool-cases (size === 0)) [
  | inl c ↦ rw (c, register_file) h
  | inr c ↦ elim (List-cases (create_unique_file_id draws tm.registrations)) [
    | inl e ↦ rw (c, register_file, e) h
    | inr (a, ys, e) ↦ rw (c, register_file, e) (from_transfers tm _ refl h)
  ]
]

pub cancel_session-IsIndexed :
    (down : Session) (file_id : Text) (tm : TransferManager)
    → IsIndexed tm
    → IsIndexed (cancel_session down file_id tm).0
unfolding cancel_session
cancel_session-IsIndexed down file_id tm h =
    elim (Option-cases (find_session_id file_id down none tm.sessions)) [
      | inl e ↦ rw (e, cancel_session) h
      | inr (sid, e) ↦ rw (e, cancel_session) (cleanup_session-IsIndexed sid tm h)
    ]

cancel_file_sessions-IsIndexed :
    (file_id : Text) (sids : List ℕ) (tm : TransferManager)
    → IsIndexed tm
    → IsIndexed (cancel_file_sessions file_id sids tm).0
unfolding cancel_file_sessions
cancel_file_sessions-IsIndexed file_id [] tm h = h
cancel_file_sessions-IsIndexed file_id (sid ∷ sids) tm h =
    elim (Bool-cases (is_session_of file_id (lookup sid tm.sessions))) [
      | inl c ↦
          rw (c, cancel_file_sessions)
            (cancel_file_sessions-IsIndexed file_id sids _
              (cancel_sessions-IsIndexed (sid ∷ []) tm h))
      | inr c ↦ rw (c, cancel_file_sessions) (cancel_file_sessions-IsIndexed file_id sids tm h)
    ]

pub cancel_file-IsIndexed :
    (file_id : Text) (tm : TransferManager) → IsIndexed tm → IsIndexed (cancel_file file_id tm).0
unfolding cancel_file
cancel_file-IsIndexed file_id tm h = elim (Option-cases (lookup file_id tm.registrations)) [
  | inl e ↦ rw (e, cancel_file) h
  | inr (reg, e) ↦
      rw (e, cancel_file)
        (from_transfers _ _ (transfers-unregister_file file_id _) (
          cancel_file_sessions-IsIndexed file_id (refs_of reg.uploader.address tm.uploader_sessions)
            tm h))
]

begun-IsIndexed :
    (sid : ℕ) (ts : TransferSession) (up down : ℕ) (tm : TransferManager)
    → sid ≡ tm.next_session_id
    → ts.uploader.address ≡ up
    → ts.downloader.address ≡ down
    → IsIndexed tm
    → IsIndexed (record tm {
      sessions = insert sid ts tm.sessions;
      uploader_sessions = push_ref up sid tm.uploader_sessions;
      downloader_sessions = push_ref down sid tm.downloader_sessions;
      next_session_id = sid + 1;
    })
begun-IsIndexed sid ts up down tm e u d h =
    let new = h.fresh sid (ground (arith, e)) in
    record {
      up =
          subst
            (λ a.
              Indexes (λ t. t.uploader) (insert sid ts tm.sessions)
                (push_ref a sid tm.uploader_sessions))
            u (push-Indexes (λ t. t.uploader) tm.sessions tm.uploader_sessions sid ts new h.up);
      down =
          subst
            (λ a.
              Indexes (λ t. t.downloader) (insert sid ts tm.sessions)
                (push_ref a sid tm.downloader_sessions))
            d
            (push-Indexes (λ t. t.downloader) tm.sessions tm.downloader_sessions sid ts new h.down);
      fresh = λ j l.
          let older = h.fresh j (ground (arith, e, l)) in
          let other : (sid === j) ≡ false = ground (arith, e, l) in
          ground (arith, older, other, lookup-insert sid j ts tm.sessions);
    }

pub start_transfer-IsIndexed :
    (m : Memory) (file_id : Text) (down : Session) (o : ℕ) (tm : TransferManager)
    → IsIndexed tm
    → IsIndexed (start_transfer m file_id down o tm).0
unfolding start_transfer
start_transfer-IsIndexed m file_id down o tm h =
    elim (Option-cases (lookup file_id tm.registrations)) [
      | inl e ↦ rw (e, start_transfer) h
      | inr (reg, e) ↦
          elim (Bool-cases (not (m.alive reg.uploader.address) || leb reg.filesize o)) [
            | inl c ↦ rw (e, start_transfer, c) h
            | inr c ↦
                let n =
                  min window_size (((reg.filesize + chunk_bytes - 1) % word_limit) / chunk_bytes) in
                let ts = new_transfer tm.next_session_id file_id reg down o in
                let same = initial_requests-parties n ts in
                rw (e, start_transfer, c)
                  (begun-IsIndexed tm.next_session_id (initial_requests n ts).0 reg.uploader.address
                    down.address tm refl (ap (λ p. p.0.address) same) (ap (λ p. p.1.address) same)
                    h)
          ]
    ]
