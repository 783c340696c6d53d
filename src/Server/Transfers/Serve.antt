-- ===== src/Server/Transfers/Serve.antt =====
-- A whole download over the server, chunk by chunk (src/app/AppTransferCommands.cpp,
-- src/chatroom/TransferManager.cpp).
use chat_serve.Base.{
  ℕ, ◌+◌, ◌-◌, ◌<◌, min, ◌≡◌, refl, true, false, List, [], ◌∷◌, ◌++◌, leb, length, arith, nat,
}
use chat_serve.Text.{Text}
use chat_serve.Transfer.Frame.{Bytes, build_binary_frame}
use chat_serve.Transfer.Exchange.{ack}
use chat_serve.Server.Numbers.{word_limit}
use chat_serve.Server.State.{Session, ◌is◌, Server, Payload, text, binary, Down}
use chat_serve.Server.Files.{Draw}
use chat_serve.Server.Transfers.{chunk_bytes}
use chat_serve.Server.Events.{handle_up, ws_text, ws_binary}
use chat_serve.Server.Router.Delivery.{received_by, received_by-append}
use chat_serve.Server.Transfers.Transmit.{Serves, dwdata_text, done_text, chunk-Serves}
use chat_serve.Server.Transfers.Acknowledge.{Ends, ack-more, ack-last}

-- The rest of a file of `n` bytes from `o` on, in chunks as the server asks for them
abbrev pub Fits : ℕ → ℕ → List Bytes → Type 0
Fits n o [] = o ≡ n
Fits n o (d ∷ ds) = (o < n) × (length d ≡ min chunk_bytes (n - o)) × Fits n (o + length d) ds

-- What the downloader is sent of these chunks
abbrev pub told : ℕ → Text → ℕ → List Bytes → List Payload
told sid file_id o [] = []
told sid file_id o (d ∷ ds) =
    text (dwdata_text sid file_id o (length d))
    ∷ binary (build_binary_frame (nat sid) (nat o) d)
    ∷ told sid file_id (o + length d) ds

module _ (draws : ℕ → Draw) (up down : Session) (sid : ℕ) where
  -- The uploader sends these chunks, and the downloader acknowledges each.
  pub exchange : Server → ℕ → List Bytes → Server × List Down
  exchange sv o [] = (sv, [])
  exchange sv o (d ∷ ds) =
      let (sv1, ds1) = handle_up draws sv up (ws_binary (build_binary_frame (nat sid) (nat o) d)) in
      let (sv2, ds2) = handle_up draws sv1 down (ws_text (ack sid o)) in
      let (sv3, ds3) = exchange sv2 (o + length d) ds in (sv3, ds1 ++ (ds2 ++ ds3))

  module _ (file_id : Text) (filesize : ℕ) where
    pub exchange-told :
        (ds : List Bytes) (sv : Server) (o : ℕ) (d : Bytes)
        → Serves up down sid file_id filesize sv [] o
        → (up is down) ≡ false
        → sid < word_limit
        → filesize < word_limit
        → Fits filesize o (d ∷ ds)
        → Ends up down sid file_id filesize (exchange sv o (d ∷ ds)).0
          × (received_by down (exchange sv o (d ∷ ds)).1
              ≡ told sid file_id o (d ∷ ds) ++ text (done_text file_id) ∷ [])
    unfolding exchange
    exchange-told [] sv o d h u hs hf f =
        let (h1, r1) = chunk-Serves up down sid file_id filesize draws sv o d h u hs hf f.0 f.1 in
        let last : leb filesize (o + length d) ≡ true = ground (arith, f.2) in
        let (h2, r2) =
          ack-last up down sid file_id filesize draws _ o (o + length d) h1 u hs (omega arith)
            last in
        (h2, rw (received_by-append, r1, received_by-append, r2) refl)
    exchange-told (d' ∷ ds) sv o d h u hs hf f =
        let (h1, r1) = chunk-Serves up down sid file_id filesize draws sv o d h u hs hf f.0 f.1 in
        let more : leb filesize (o + length d) ≡ false = ground (arith, f.2.0) in
        let (h2, r2) =
          ack-more up down sid file_id filesize draws _ o (o + length d) h1 u hs (omega arith)
            more in
        let (h3, r3) = exchange-told ds _ (o + length d) d' h2 u hs hf f.2 in
        (h3, rw (received_by-append, r1, received_by-append, r2, r3) refl)
