-- ===== src/WebRtc/Pairs/Signals.antt =====
-- The signals and the promises of `useWebRTC`, and the pairs of peers and open connections.
use chat_serve.Base.{
  nat_eq, list_eq, ℕ, refl, Bool, List, Option, none, some, if◌then◌else◌, ◌===◌, lookup, erase,
}
use chat_serve.Text.{Text}
use chat_serve.Chat.State.{Member}
use chat_serve.WebRtc.State.{
  Calls, CallStep, MediaKind, Platform, await, user_media, Description, offer, answer, Accept, Task,
  connect_offer, connect_local, negotiate_offer, negotiate_local, accept_remote, accept_answer,
  accept_local, Outcome, done, described, granted, failed,
}
use chat_serve.WebRtc.Peers.{peer_of, get_peer, close_peer, create_pc}
use chat_serve.WebRtc.Media.{add_my_tracks, end_opening, finish_media, take_stream}
use chat_serve.WebRtc.Signals.{
  start_connect, connect_to, set_remote, start_accept, accept_fresh, accept_again, handle_offer,
  handle_answer, add_candidate, handle_ice, accept_failed, accepted, resume, settle,
}
use chat_serve.WebRtc.Branches.{in_if, in_option}
use chat_serve.WebRtc.Pairs.{IsPaired, close_peer-IsPaired, create_pc-IsPaired}
use chat_serve.WebRtc.Pairs.Same.{
  SamePairs, same-IsPaired, same_refl, same_if, same_parts, await-same, set_remote-same,
  get_peer-same, owner-change,
}
use chat_serve.WebRtc.Pairs.Media.{
  add_my_tracks-same, end_opening-same, finish_media-same, take_stream-same,
}

pub IsPaired-if :
    (b : Bool) (x y : CallStep) → IsPaired x.0 → IsPaired y.0 → IsPaired (if b then x else y).0
IsPaired-if = in_if IsPaired

pub IsPaired-case :
    {A : Type 0} (o : Option A) (x : CallStep) (y : A → CallStep)
    → IsPaired x.0
    → ((a : A) → IsPaired (y a).0)
    → IsPaired (elim o as (λ _. CallStep) [ none ↦ x | some a ↦ y a ]).0
IsPaired-case = in_option IsPaired

pub await-IsPaired : (c : Calls) (t : Task) → IsPaired c → IsPaired (await c t)
await-IsPaired c t h = same-IsPaired _ c (await-same c t) h

set_remote-IsPaired :
    (c : Calls) (i : ℕ) (d : Description) → IsPaired c → IsPaired (set_remote c i d)
set_remote-IsPaired c i d h = same-IsPaired _ c (set_remote-same c i d) h

start_connect-IsPaired :
    (members : List Member) (c : Calls) (k : Text)
    → IsPaired c
    → IsPaired (start_connect members c k).0
unfolding start_connect
start_connect-IsPaired members c k h = await-IsPaired _ _ (
    same-IsPaired _ _ (add_my_tracks-same (create_pc c k) c.next_connection)
      (create_pc-IsPaired c k h))

pub connect_to-IsPaired :
    (my_id : Text) (members : List Member) (c : Calls) (k : Text)
    → IsPaired c
    → IsPaired (connect_to my_id members c k).0
unfolding connect_to
connect_to-IsPaired my_id members c k h =
    IsPaired-if (k === my_id) _ _ h
      (IsPaired-case (lookup k c.peers) _ _ (start_connect-IsPaired members c k h) (λ _. h))

module _ (p : Platform) where
  start_accept-IsPaired :
      (c : Calls) (a : Accept) (sdp : Text) → IsPaired c → IsPaired (start_accept c a sdp).0
  start_accept-IsPaired c a sdp h = await-IsPaired _ _ (set_remote-IsPaired c a.pc (offer sdp) h)

  accept_fresh-IsPaired :
      (c : Calls) (k nick sdp : Text) → IsPaired c → IsPaired (accept_fresh p c k nick sdp).0
  unfolding accept_fresh
  accept_fresh-IsPaired c k nick sdp h =
      IsPaired-case (p.atob sdp) _ _ (create_pc-IsPaired c k h)
        λ text. start_accept-IsPaired _ _ text (create_pc-IsPaired c k h)

  accept_again-IsPaired :
      (c : Calls) (k nick sdp : Text) → IsPaired c → IsPaired (accept_again p c k nick sdp).0
  accept_again-IsPaired c k nick sdp h =
      accept_fresh-IsPaired (close_peer c k) k nick sdp (close_peer-IsPaired c k h)

  pub handle_offer-IsPaired :
      (c : Calls) (k nick sdp : Text) → IsPaired c → IsPaired (handle_offer p c k nick sdp).0
  unfolding handle_offer
  handle_offer-IsPaired c k nick sdp h =
      IsPaired-case (peer_of c.peers k).pc _ _ (accept_fresh-IsPaired _ k nick sdp entered) λ i.
        IsPaired-case (p.atob sdp) _ _ (accept_again-IsPaired _ k nick sdp entered)
          λ text. start_accept-IsPaired _ _ text entered
    where
      entered : IsPaired (get_peer c k)
      entered = same-IsPaired _ c (get_peer-same c k) h

  pub handle_answer-IsPaired :
      (c : Calls) (k sdp : Text) → IsPaired c → IsPaired (handle_answer p c k sdp).0
  unfolding handle_answer
  handle_answer-IsPaired c k sdp h =
      IsPaired-case (peer_of c.peers k).pc _ _ h
        λ i. IsPaired-case (p.atob sdp) _ _ h λ text. set_remote-IsPaired c i (answer text) h

  add_candidate-same : (c : Calls) (i : ℕ) (json : Text) → SamePairs (add_candidate p c i json) c
  add_candidate-same c i json = record {
    owners = λ j. owner-change i j _ c.connections (λ pc. refl) (λ pc. refl);
    pcs = λ k. refl;
    next = refl;
  }

  pub handle_ice-IsPaired :
      (c : Calls) (k json : Text) → IsPaired c → IsPaired (handle_ice p c k json).0
  unfolding handle_ice
  handle_ice-IsPaired c k json h = IsPaired-case (peer_of c.peers k).pc _ _ h λ i.
      IsPaired-case (p.atob json) _ _ h λ text.
        same-IsPaired _ c
          (same_if (p.is_candidate text) _ _ c (add_candidate-same c i text) (same_refl c)) h

  accept_failed-IsPaired : (c : Calls) (a : Accept) → IsPaired c → IsPaired (accept_failed p c a).0
  unfolding accept_failed
  accept_failed-IsPaired c a h =
      IsPaired-if a.is_fresh _ _ h (accept_again-IsPaired c a.from_id a.from_nick a.sdp_base64 h)

  accepted-IsPaired : (c : Calls) (a : Accept) → IsPaired c → IsPaired (accepted p c a).0
  unfolding accepted
  accepted-IsPaired c a h =
      IsPaired-if a.is_fresh _ _ (IsPaired-if (add_my_tracks c a.pc).1 _ _ added added) h
    where
      added : IsPaired (add_my_tracks c a.pc).0
      added = same-IsPaired _ c (add_my_tracks-same c a.pc) h

  granted-IsPaired :
      (c : Calls) (kind : MediaKind) (b : Bool)
      → IsPaired c
      → IsPaired (finish_media (end_opening b (take_stream c kind)) kind).0
  granted-IsPaired c kind b h = same-IsPaired _ _ (finish_media-same _ kind) (
      same-IsPaired _ _ (end_opening-same b (take_stream c kind))
        (same-IsPaired _ c (take_stream-same c kind) h))

  resume-IsPaired : (c : Calls) (t : Task) (o : Outcome) → IsPaired c → IsPaired (resume p c t o).0
  unfolding resume
  resume-IsPaired c (connect_offer i k name) done h = h
  resume-IsPaired c (connect_offer i k name) (described sdp) h = await-IsPaired _ _ h
  resume-IsPaired c (connect_offer i k name) granted h = h
  resume-IsPaired c (connect_offer i k name) (failed _) h = h
  resume-IsPaired c (connect_local i k name sdp) done h = h
  resume-IsPaired c (connect_local i k name sdp) (described _) h = h
  resume-IsPaired c (connect_local i k name sdp) granted h = h
  resume-IsPaired c (connect_local i k name sdp) (failed _) h = h
  resume-IsPaired c (negotiate_offer i k) done h = h
  resume-IsPaired c (negotiate_offer i k) (described _) h = await-IsPaired _ _ h
  resume-IsPaired c (negotiate_offer i k) granted h = h
  resume-IsPaired c (negotiate_offer i k) (failed _) h = h
  resume-IsPaired c (negotiate_local i k) done h = h
  resume-IsPaired c (negotiate_local i k) (described _) h = h
  resume-IsPaired c (negotiate_local i k) granted h = h
  resume-IsPaired c (negotiate_local i k) (failed _) h = h
  resume-IsPaired c (accept_remote a) done h = await-IsPaired _ _ h
  resume-IsPaired c (accept_remote a) (described _) h = h
  resume-IsPaired c (accept_remote a) granted h = h
  resume-IsPaired c (accept_remote a) (failed _) h = accept_failed-IsPaired c a h
  resume-IsPaired c (accept_answer a) done h = h
  resume-IsPaired c (accept_answer a) (described sdp) h = await-IsPaired _ _ h
  resume-IsPaired c (accept_answer a) granted h = h
  resume-IsPaired c (accept_answer a) (failed _) h = accept_failed-IsPaired c a h
  resume-IsPaired c (accept_local a sdp) done h = accepted-IsPaired c a h
  resume-IsPaired c (accept_local a sdp) (described _) h = h
  resume-IsPaired c (accept_local a sdp) granted h = h
  resume-IsPaired c (accept_local a sdp) (failed _) h = accept_failed-IsPaired c a h
  resume-IsPaired c (user_media kind b) done h = h
  resume-IsPaired c (user_media kind b) (described _) h = h
  resume-IsPaired c (user_media kind b) granted h = granted-IsPaired c kind b h
  resume-IsPaired c (user_media kind b) (failed _) h = same-IsPaired _ c (end_opening-same b c) h

  pub settle-IsPaired : (c : Calls) (i : ℕ) (o : Outcome) → IsPaired c → IsPaired (settle p c i o).0
  unfolding settle
  settle-IsPaired c i o h = IsPaired-case (lookup i c.tasks) _ _ h λ task.
      resume-IsPaired (record c { tasks = erase i c.tasks }) task o
        (same-IsPaired _ c (same_parts _ c refl refl refl) h)
