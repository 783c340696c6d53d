-- ===== src/WebRtc/State.antt =====
-- The state of `useWebRTC`, and of the browser's objects that it works on: connections and tracks by
-- number, and what the code awaits.
use chat_serve.Base.{ℕ, Bool, false, List, [], Option, none, Dict, suc, insert, nat_eq}
use chat_serve.Text.{Text, lit}
use chat_serve.Transfer.State.{Effect}

pub data MediaKind : Type 0 where
  audio video : MediaKind

abbrev pub kind_text : MediaKind → Text
kind_text audio = lit "audio"
kind_text video = lit "video"

-- A `MediaStreamTrack`; `mic_gain` is the mark `_micGain` of a track behind the gain node.
pub record Track : Type 0 where
  pub kind : MediaKind
  pub is_live : Bool
  pub enabled : Bool
  pub muted : Bool
  pub mic_gain : Bool

-- An entry of `peers`. The streams are lists of tracks; a tick that is not set yet is 0.
pub record Peer : Type 0 where
  pub pc : Option ℕ
  pub stream : Option (List ℕ)
  pub media_state : Dict Text Text
  pub media_tick : ℕ

-- `{ pc: null, stream: null, mediaState: {} }`
abbrev pub new_peer : Peer
new_peer = record { pc = none; stream = none; media_state = []; media_tick = 0 }

pub data Description : Type 0 where
  offer answer : (sdp : Text) → Description

-- An `RTCPeerConnection`: the peer that its handlers close over, whether `closePeer` has closed it
-- and taken `onconnectionstatechange` off, the tracks of its senders, and the calls of
-- `setRemoteDescription` and `addIceCandidate`, the latest last.
pub record Connection : Type 0 where
  pub peer_id : Text
  pub is_closed : Bool
  pub senders : List ℕ
  pub remote : List Description
  pub candidates : List Text

-- What `acceptOffer` and the `handleOffer` around it close over; `is_fresh` for the second call.
pub record Accept : Type 0 where
  pub pc : ℕ
  pub from_id : Text
  pub from_nick : Text
  pub sdp_base64 : Text
  pub is_fresh : Bool

-- What an asynchronous function awaits, and what it goes on with.
pub data Task : Type 0 where
  -- `connectTo`: `createOffer`, then `setLocalDescription`
  connect_offer : (pc : ℕ) (peer_id name : Text) → Task
  connect_local : (pc : ℕ) (peer_id name sdp : Text) → Task
  -- `onnegotiationneeded`: the same two
  negotiate_offer negotiate_local : (pc : ℕ) (peer_id : Text) → Task
  -- `acceptOffer`: `setRemoteDescription`, `createAnswer`, `setLocalDescription`
  accept_remote accept_answer : Accept → Task
  accept_local : Accept → (sdp : Text) → Task
  -- `toggleMedia` in `getUserMedia`, called by the user or, if `from_mic`, by `ensureMicOn`
  user_media : (kind : MediaKind) (from_mic : Bool) → Task

-- How a promise settles.
pub data Outcome : Type 0 where
  done : Outcome
  described : (sdp : Text) → Outcome
  granted : Outcome
  failed : (message : Text) → Outcome

-- The variables of `useWebRTC`. The audio context and its gain node are made and dropped together:
-- `gain_node` is the gain that it has. Gains and volumes are hundredths.
pub record Calls : Type 0 where
  pub peers : Dict Text Peer
  pub my_stream : Option (List ℕ)
  pub cam_on : Bool
  pub mic_on : Bool
  pub mic_gain : ℕ
  pub volume : ℕ
  pub gain_node : Option ℕ
  pub mic_raw_track : Option ℕ
  pub last_mic_gain : ℕ
  pub last_volume : ℕ
  pub opening_mic : Bool
  -- the browser's objects
  pub connections : Dict ℕ Connection
  pub next_connection : ℕ
  pub tracks : Dict ℕ Track
  pub next_track : ℕ
  pub tasks : Dict ℕ Task
  pub next_task : ℕ

abbrev pub CallStep : Type 0
CallStep = Calls × List Effect

abbrev pub new_calls : Calls
new_calls = record {
  peers = [];
  my_stream = none;
  cam_on = false;
  mic_on = false;
  mic_gain = 0;
  volume = 80;
  gain_node = none;
  mic_raw_track = none;
  last_mic_gain = 100;
  last_volume = 100;
  opening_mic = false;
  connections = [];
  next_connection = 0;
  tracks = [];
  next_track = 0;
  tasks = [];
  next_task = 0;
}

-- The platform: base64, whether `navigator.mediaDevices.getUserMedia` is there, and whether a text is
-- the JSON of an ICE candidate.
pub record Platform : Type 0 where
  pub btoa : Text → Text
  pub atob : Text → Option Text
  pub has_user_media : Bool
  pub is_candidate : Text → Bool

-- A promise that the code awaits from now on
unfoldable pub await : Calls → Task → Calls
await c task = record c { tasks = insert c.next_task task c.tasks; next_task = suc c.next_task }
