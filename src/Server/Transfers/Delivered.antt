-- ===== src/Server/Transfers/Delivered.antt =====
-- A file on its way from one client over the server into the other's download
-- (web/src/composables/useChat.js, useFileTransfer.js; src/app/AppTransferCommands.cpp).
use mathlib.Core.List.{Perm}
use mathlib.Core.List.Perm
use chat_serve.Base.{
  ℕ, ◌+◌, ◌^◌, ◌<◌, ◌≡◌, refl, ap, ◌∙◌, sym, subst, false, List, [], ◌∷◌, ◌++◌, append-nil,
  append_assoc, none, All, lookup, concat, length, length-append, nat, arith, nat_beq_iff, list_eq,
  nat_eq,
}
use chat_serve.Text.{Text, Lacks, starts_with}
use chat_serve.Text.Number.{show, show-Lacks}
use chat_serve.Notice.{downloaded}
use chat_serve.Transfer.Frame.{Bytes, build_binary_frame}
use chat_serve.Transfer.State.{
  Transfer, Effect, send_command, send_binary, add_system_message, add_file_message,
  read_as_array_buffer, save_blob,
}
use chat_serve.Transfer.Receive.{
  handle_dwstart, handle_dwdata, handle_binary, handle_dwndone, accept_frame, accept_chunk,
}
use chat_serve.Transfer.Assembly.{pieces, IsFull}
use chat_serve.Transfer.Complete.{
  Sent, announced, arrived, receive, arrivals, IsAnnounced, download_complete,
}
use chat_serve.Chat.State.{
  Chat, Moment, Rtc, perform, perform_all, with_ft, send_if_open, add_system, add_file,
}
use chat_serve.Chat.Routing.{
  handle_text_message, handle_signal, handle_file_message, handle_binary_message,
}
use chat_serve.Chat.Messages.{dwdata_lem}
use chat_serve.Server.Transfers.Transmit.{Serves, done_text}
use chat_serve.Server.State.{Session, ◌is◌, Server, Payload, text, binary}
use chat_serve.Server.Files.{Draw}
use chat_serve.Server.Router.Delivery.{received_by}
use chat_serve.Server.Transfers.Acknowledge.{Ends}
use chat_serve.Server.Transfers.Serve.{told, Fits, exchange, exchange-told}

-- The files that a list of effects saves
abbrev saves : List Effect → List (Text × Bytes)
saves [] = []
saves (save_blob name b ∷ es) = (name, b) ∷ saves es
saves (send_command s ∷ es) = saves es
saves (send_binary b ∷ es) = saves es
saves (add_system_message n ∷ es) = saves es
saves (add_file_message m ∷ es) = saves es
saves (read_as_array_buffer r ∷ es) = saves es

module _ {ℓ} {R : Type ℓ} where
  perform_all-ft : (es : List Effect) (c : Chat R) → (perform_all c es).ft ≡ c.ft
  unfolding perform_all perform send_if_open add_system add_file
  perform_all-ft [] c = refl
  perform_all-ft (send_command s ∷ es) c = perform_all-ft es _ ∙ ground arith
  perform_all-ft (send_binary b ∷ es) c = perform_all-ft es _ ∙ ground arith
  perform_all-ft (add_system_message n ∷ es) c = perform_all-ft es _
  perform_all-ft (add_file_message m ∷ es) c = perform_all-ft es _
  perform_all-ft (read_as_array_buffer r ∷ es) c = perform_all-ft es _
  perform_all-ft (save_blob name b ∷ es) c = perform_all-ft es _

  perform_all-saved :
      (es : List Effect) (c : Chat R) → (perform_all c es).page.saved ≡ c.page.saved ++ saves es
  unfolding perform_all perform send_if_open add_system add_file
  perform_all-saved [] c = sym (append-nil c.page.saved)
  perform_all-saved (send_command s ∷ es) c =
      perform_all-saved es _ ∙ ap (λ x. x ++ saves es) (ground arith)
  perform_all-saved (send_binary b ∷ es) c =
      perform_all-saved es _ ∙ ap (λ x. x ++ saves es) (ground arith)
  perform_all-saved (add_system_message n ∷ es) c = perform_all-saved es _
  perform_all-saved (add_file_message m ∷ es) c = perform_all-saved es _
  perform_all-saved (read_as_array_buffer r ∷ es) c = perform_all-saved es _
  perform_all-saved (save_blob name b ∷ es) c =
      perform_all-saved es _ ∙ append_assoc c.page.saved ((name, b) ∷ []) (saves es)

handle_binary-saves : (t : Transfer) (b : Bytes) → saves (handle_binary t b).1 ≡ []
unfolding handle_binary accept_frame accept_chunk
handle_binary-saves t b = ground arith

-- The chunks as the client's download sees them, each announced just before it arrives
abbrev sends : ℕ → List Bytes → List Sent
sends o [] = []
sends o (d ∷ ds) = announced o ∷ arrived o d ∷ sends (o + length d) ds

arrivals-sends : (o : ℕ) (ds : List Bytes) → arrivals (sends o ds) ≡ pieces o ds
arrivals-sends o [] = refl
arrivals-sends o (d ∷ ds) = ap ((o, d) ∷◌) (arrivals-sends (o + length d) ds)

Fits-IsFull : (n o : ℕ) (ds : List Bytes) → Fits n o ds → All IsFull ds
Fits-IsFull n o [] h = tt
Fits-IsFull n o (d ∷ ds) h = (omega (arith, h.0, h.1), Fits-IsFull n (o + length d) ds h.2)

Fits-length : (n o : ℕ) (ds : List Bytes) → Fits n o ds → o + length (concat ds) ≡ n
Fits-length n o [] h = omega (arith, h)
Fits-length n o (d ∷ ds) h =
    omega (arith, Fits-length n (o + length d) ds h.2, length-append d (concat ds))

IsAnnounced-sends :
    (n o : ℕ) (ds : List Bytes) → n < 2 ^ 53 → Fits n o ds → IsAnnounced [] (sends o ds)
IsAnnounced-sends n o [] l h = tt
IsAnnounced-sends n o (d ∷ ds) l h =
    let next = IsAnnounced-sends n (o + length d) ds l h.2 in
    let self = (nat_beq_iff o o).1 refl in (rw self refl, omega (arith, h.0), rw self next)

module _ {ℓ} {R : Type ℓ} (rtc : Rtc R) (at : Moment) where
  -- What the client does with each frame that comes
  pub consume : Chat R → List Payload → Chat R
  consume c [] = c
  consume c (text s ∷ ps) = consume (handle_text_message rtc c at s) ps
  consume c (binary b ∷ ps) = consume (handle_binary_message c b) ps

  consume-append :
      (ps qs : List Payload) (c : Chat R) → consume c (ps ++ qs) ≡ consume (consume c ps) qs
  unfolding consume
  consume-append [] qs c = refl
  consume-append (text s ∷ ps) qs c = consume-append ps qs _
  consume-append (binary b ∷ ps) qs c = consume-append ps qs _

  module _ (sid : ℕ) (file_id : Text) (bar : Lacks b'|' file_id) where
    consume-told :
        (ds : List Bytes) (o : ℕ) (c : Chat R)
        → ((consume c (told sid file_id o ds)).ft ≡ receive file_id sid c.ft (sends o ds))
          × ((consume c (told sid file_id o ds)).page.saved ≡ c.page.saved)
    unfolding consume receive handle_binary_message with_ft
    consume-told [] o c = (refl, refl)
    consume-told (d ∷ ds) o c =
        let e =
          dwdata_lem rtc c at (show sid) file_id o (length d) (show-Lacks b'|' sid refl) bar in
        let c1 = record c { ft = handle_dwdata c.ft (show sid) file_id (nat o) } in
        let frame = build_binary_frame (nat sid) (nat o) d in
        let (t, es) = handle_binary c1.ft frame in
        let c2 = perform_all (record c1 { ft = t }) es in
        let (h, k) = consume-told ds (o + length d) c2 in
        let ft : c2.ft ≡ t = perform_all-ft es (record c1 { ft = t }) in
        let none' = handle_binary-saves c1.ft frame in
        let saved : c2.page.saved ≡ c.page.saved =
          perform_all-saved es (record c1 { ft = t })
          ∙ (ap (λ x. c.page.saved ++ x) none' ∙ append-nil c.page.saved) in
        let step =
          ap (λ x. consume (handle_binary_message x frame) (told sid file_id (o + length d) ds))
            e in
        (
          ap (λ x. x.ft) step ∙ (h ∙ ap (λ u. receive file_id sid u (sends (o + length d) ds)) ft),
          ap (λ x. x.page.saved) step ∙ (k ∙ saved),
        )

-- A file goes over the server in chunks, each acknowledged: the server sends the downloader just
-- those frames, announced in order and followed by the end of the download, and its session is
-- gone; and the downloader's client, which has begun the download, saves just that file under its
-- name at the end of these frames, and nothing else. Both are connected and in one room, where the
-- session waits for its first chunk; they are not the same; the chunks have the sizes that the
-- server asks for, and session id and size are below 2 ^ 53, up to where a double is exact.
pub file_delivered {ℓ} :
    {R : Type ℓ} (rtc : Rtc R) (at : Moment) (c : Chat R) (t : Transfer) (draws : ℕ → Draw)
    (sv : Server) (up down : Session) (sid : ℕ) (file_id name : Text) (d : Bytes) (ds : List Bytes)
    → let file = concat (d ∷ ds) in
      Serves up down sid file_id (length file) sv [] 0
      → (up is down) ≡ false
      → sid < 2 ^ 53
      → length file < 2 ^ 53
      → Lacks b'|' file_id
      → Fits (length file) 0 (d ∷ ds)
      → lookup file_id t.download_sessions ≡ none
      → c.ft ≡ handle_dwstart t file_id name (nat (length file))
      → let served = exchange draws up down sid sv 0 (d ∷ ds) in
        let frames = received_by down served.1 in
        (frames ≡ told sid file_id 0 (d ∷ ds) ++ text (done_text file_id) ∷ [])
        × Ends up down sid file_id (length file) served.0
        × ((consume rtc at c frames).page.saved ≡ c.page.saved ++ (name, file) ∷ [])
unfolding consume handle_text_message handle_signal handle_file_message starts_with with_ft
file_delivered rtc at c t draws sv up down sid file_id name d ds h u hs hn bar f fresh begun =
    let file = concat (d ∷ ds) in
    let (ends, frames) =
      exchange-told draws up down sid file_id (length file) ds sv 0 d h u (omega arith)
        (omega arith) f in
    let (ft, saved) = consume-told rtc at sid file_id bar (d ∷ ds) 0 c in
    let c1 = consume rtc at c (told sid file_id 0 (d ∷ ds)) in
    let done =
      download_complete t file_id name sid (d ∷ ds) (sends 0 (d ∷ ds)) fresh hs
        (Fits-IsFull (length file) 0 (d ∷ ds) f) (IsAnnounced-sends (length file) 0 (d ∷ ds) hn f)
        (subst (λ p. Perm p (pieces 0 (d ∷ ds))) (sym (arrivals-sends 0 (d ∷ ds)))
          (Perm.refl (pieces 0 (d ∷ ds)))) in
    let last =
      ap (λ x. handle_dwndone x file_id)
        (ft ∙ ap (λ x. receive file_id sid x (sends 0 (d ∷ ds))) begun)
      ∙ done in
    let end : consume rtc at c (told sid file_id 0 (d ∷ ds) ++ text (done_text file_id) ∷ [])
        ≡ with_ft c1 (handle_dwndone c1.ft file_id) =
      consume-append rtc at (told sid file_id 0 (d ∷ ds)) (text (done_text file_id) ∷ []) c in
    (
      frames,
      ends,
      ap (λ ps. (consume rtc at c ps).page.saved) frames
          ∙ (ap (λ x. x.page.saved) end
              ∙ (ap (λ s. (with_ft c1 s).page.saved) last
                  ∙ (perform_all-saved
                        (save_blob name file ∷ add_system_message (downloaded name) ∷ []) _
                      ∙ ap (λ x. x ++ (name, file) ∷ []) saved))),
    )
