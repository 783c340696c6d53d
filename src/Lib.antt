-- ===== src/Lib.antt =====
-- The chat server's application layer and its clients (src/app, src/chatroom, web/src and client): a
-- library of their state machines and of what makes them correct, each alone and together.
--
-- The browser's client has three parts, which meet in one state. `useChat`
-- (web/src/composables/useChat.js) keeps the WebSocket, its heartbeat and its reconnection, and hands
-- each message of the server to the part that it is for. `useFileTransfer`
-- (web/src/composables/useFileTransfer.js) sends files in chunks and puts them together. It acts on the
-- page and on the socket through four functions that `useChat` gives to it; here its operations return a
-- new state and a list of effects, and `perform` of Chat/State is what those functions do. `useWebRTC`
-- (web/src/composables/useWebRTC.js) keeps the peer connections and the user's media. The chat takes it
-- as a record of operations, `Rtc`, and `web_rtc` of WebRtc/Events is that record. The components of the
-- page (web/src/components) show the state and start its operations.
--
-- The server's application layer takes a session's text messages, its chunks and its end (`AppHandler`).
-- The router parses a message and calls the handler of its command; handlers change the rooms, the
-- transfers of a room and the session's room, and return the frames to send, each with its session.
-- Server is that layer. Its theorems on the way from one client to another apply the server's handlers
-- and then the client's functions to the frames that the server returns.
--
-- Files:
--   Base, Base/Tests, Base/Lists, Base/Dictionary, Base/Int: tests, lists, JavaScript objects as
--     dictionaries in the order of insertion, and integers with NaN;
--   Text, Text/Number, Text/Laws: JavaScript strings as UTF-16 code units, `indexOf`, `split`,
--     `substring`, `parseInt`, and their laws;
--   Notice: the calls of `addSystemMessage`, and the text of each;
--   Format: `formatFileSize` (web/src/utils.js);
--   Transfer/State: the dictionaries of `useFileTransfer`, and its effects; Transfer/Frame:
--     `buildBinaryFrame` and the header that `handleBinary` reads; Transfer/Upload: `selectFile`,
--     `sendUpload`, `cancelUploadFile`, `handleDWREQ` and its reader, `handleUPOK`; Transfer/Download:
--     `startDownload`, `pauseDownload`, `resumeDownload`, `cancelDownloadFile`, `finishDownload`;
--     Transfer/Receive: `handleFILE`, `handleDWSTART`, `handleDWDATA`, `handleDWNDONE`, `handleDWERR`,
--     `handleLeave`, `handleBinary`;
--   Transfer/Keys, Exchange, Order, Assembly, Complete, Checkpoint, EmptyChunk, Cancel, Leave, Offers: proofs
--     on them;
--   Chat/State: the variables of `useChat`, and the page: sockets by number, pending timers, what was
--     sent, readers at work, files saved; Chat/Connection: `connect`, `onopen`, `handleDisconnect`,
--     `heartbeatTick`, `sendMessage`, `leave`, the hook of `onUnmounted`; Chat/Routing:
--     `handleTextMessage` and `handleBinaryMessage`; Chat/Events: the events of the user, the sockets
--     and the timers as one function `step`;
--   Chat/Link, Timers, Timers/Run, Heartbeat, Heartbeat/Alive, Ending, Rejoin, Messages, Signals, Calls,
--     Calls/Messages, Calls/Run: proofs on them;
--   WebRtc/State: the variables of `useWebRTC`, and the browser's connections, tracks and pending promises
--     by number; WebRtc/Peers: `getPeer`, `closePeer`, `removePeer`, `createPC`; WebRtc/Media
--     and Media/Tracks: `setTrackEnabled`, `getSendAudioTrack`, `addMyTracksToPC`, `setMicGain`,
--     `ensureMicOn`, `startMyMedia`, `toggleMedia`, `toggleMic`, `toggleVolume`, `hangupAll`; WebRtc/Signals: `connectTo`,
--     `acceptOffer`, `handleOffer`, `handleAnswer`, `handleIce`, `handleMedia`, and what the asynchronous
--     functions go on with; WebRtc/Events: the user's switches and the handlers that `createPC` sets;
--   WebRtc/Branches, Pairs, Pairs/Same, Pairs/Media, Pairs/Signals, Pairs/Run, Hangup, Session, Leaver,
--     Handshake, Answer, Connect, Granted, Switches: proofs on them;
--   Client: the desktop shell (client/main.js): `resolve_server`, the handler of `certificate-error`, and
--     the address that the window loads; the platform's URL parser is a parameter;
--   View/FileCard, VideoGrid, MessageList, ChatView, LoginPanel: the components of that name in
--     web/src/components; View/CardMoves, CardClicks: proofs on the buttons of a card;
--   Server/Parser: `AppParser` (src/app/AppParser.cpp); Server/Numbers: `stoi`, `stoul` and `stoull`;
--     Server/State: sessions, rooms, transfers and frames (include/ctrl, include/chatroom);
--     Server/Files: file ids and registrations, Server/Transfers: the window and the chunks, Server/Cancel:
--     the ends of transfers (src/chatroom/TransferManager.cpp); Server/Rooms: `Room`, `RoomManager`
--     (src/chatroom/Room.cpp); Server/Router: the commands of chat, signals and heartbeat, the broadcasts
--     (src/app/AppChatCommands.cpp, AppSignalCommands.cpp, AppHeartbeatCommands.cpp, AppRouter.cpp);
--     Server/Commands: the commands of transfers (src/app/AppTransferCommands.cpp); Server/Events:
--     `handle`, `cleanup` and `handle_up` (src/app/AppRouter.cpp, AppHandler.cpp);
--   Server/Rooms/Seats, Seating, Members, Refine, Invariant, Kept, Leaving, Runs: proofs on the rooms;
--   Server/Router/Delivery, Relay, Lines, Roster, Arrival, Departure: proofs on who gets which frame;
--   Server/Cancel/Refs, Indexed, Ended, Kept, Handlers, Agree: proofs on the tables of transfers;
--   Server/Transfers/Window, Header, Transmit, Acknowledge, Serve, Delivered, Begin, Overrun, Asking:
--     proofs on transfers;
--   Tests, Tests/Transfer, Tests/Chat, Tests/Client, Tests/WebRtc, Tests/View, Tests/Server: small runs.
--
-- A method `fooBar` is the function `foo_bar`; a handler's closure is the function of the event that
-- calls it. Early returns and guards are branches in the order of the source.
--
-- In `useWebRTC` an `await` ends a step: the state keeps a task, which is what the function goes on with,
-- and the event `settles` runs it with the promise's outcome, in any order. What runs between two promises
-- of the platform is one step. The texts of descriptions and candidates come from the browser; base64,
-- whether `getUserMedia` is there and which texts are candidates are the parameter `Platform`. A stream
-- that is granted has one track of the kind that was asked for. Gains and volumes are hundredths. The
-- audio graph is kept as the gain of its node.
--
-- A session of the server is the address of its object, which no other session has; what changes of it
-- stands in `Memory` by address: its room, whether its connection is open, and whether a weak pointer has
-- lost it. Handlers run one at a time: the server keeps one session's messages in order, and the locks
-- that two sessions meet at are held for a whole operation of a room or of its transfers. Connections close
-- and sessions expire between two handlers. A room that a handler holds by pointer is written back at its
-- name. A set is a list without repetition, and what an exception skips is `none`. Texts are code units on
-- both sides: the server cuts at bars only, and UTF-8 carries them without loss.
--
-- Bounds and fuel. Numbers are exact integers, as doubles are up to 2 ^ 53; the theorems on frames ask
-- for session ids and offsets below that, and a 32-bit word keeps its reduction. Times are
-- `performance.now()` in microseconds. The loop of `resumeDownload` runs on rounds: as many as there are
-- chunks, and one more, are enough where no chunk is empty, and no number is enough behind an empty one
-- at the end of a run. A decimal form has fewer digits than its number plus one. The server's words
-- are reduced modulo 2 ^ 64 where the source adds or multiplies them, numbers out of range are refused as
-- the library does, and an ever growing session id is a plain number. `parse_params` runs on the length of
-- its text, which it shortens in every round; the draw of a file id has 32 attempts, as in the source, and
-- what the clock and the generator give is an argument.
--
-- The percentage on a card is rounded from the exact quotient, and positions in a list are whole pixels.
--
-- Not modelled: the negotiation inside `RTCPeerConnection`, of which only the calls are kept; the rest of
-- the templates, and what a video element plays; Vue's reactivity; the URL of the socket; the rounding
-- of the percentage in one message, which is a parameter of `render`; keys that are names of
-- `Object.prototype`, and that a loop over an object comes to keys that are whole numbers first; an
-- undefined start offset, which stands for 0; and of the server, the event loop, HTTP, the framing of
-- WebSocket and the queues between threads, so that the order of messages of different sessions is any
-- order. What a closed socket or a cleared timer could still raise is no event.
pub mod Base
pub mod Text
pub mod Notice
pub mod Transfer
pub mod Format
pub mod Chat
pub mod WebRtc
pub mod View
pub mod Client
pub mod Server
pub mod Tests
