-- ===== src/WebRtc/Leaver.antt =====
-- A member leaves: `LEAVE` in `useChat`, and `removePeer` of `useWebRTC`.
use chat_serve.Base.{
  ℕ, ◌≡◌, refl, ap, not, filter, [], ◌∷◌, ◌++◌, none, some, arith, nat_eq, list_eq, nat_beq_iff,
  ◌===◌, lookup,
}
use chat_serve.Text.{Text, lit, join, starts_with, Lacks}
use chat_serve.Text.Laws.{split-join}
use chat_serve.Notice.{left}
use chat_serve.Chat.State.{Chat, Moment}
use chat_serve.Chat.Routing.{handle_text_message, on_leave, say_member, fields, part}
use chat_serve.Chat.Calls.{say_member-rtc}
use chat_serve.WebRtc.State.{Calls, Platform}
use chat_serve.WebRtc.Peers.{close_peer, remove_peer}
use chat_serve.WebRtc.Events.{web_rtc}
use chat_serve.WebRtc.Pairs.{owner, pc_at, IsPaired, owner-close_peer}
use chat_serve.WebRtc.Connect.{lookup-close_peer}

leaver_of : (id : Text) → Lacks b'|' id → part (fields (lit "LEAVE|" ++ id)) 1 ≡ id
unfolding join
leaver_of id h =
    ap (λ parts. part parts 1)
      (split-join b'|' (lit "LEAVE") (id ∷ []) (refl, (refl, (refl, (refl, (refl, tt))))) (h, tt))

members-say_member : (c : Chat Calls) (i : Text) → (say_member c i left).member_list ≡ c.member_list
unfolding say_member
members-say_member c i = ground arith

module _ (p : Platform) where
  on_leave-remove_peer :
      (c : Chat Calls) (id : Text)
      → ((on_leave (web_rtc p) c id).rtc ≡ (remove_peer c.rtc c.member_list id).0)
        × ((on_leave (web_rtc p) c id).member_list ≡ (remove_peer c.rtc c.member_list id).1)
  unfolding on_leave web_rtc remove_peer
  on_leave-remove_peer c id = (
    ap (λ r. close_peer r id) (say_member-rtc c id left),
    ap (filter (λ m. not (m.id === id))) (members-say_member c id),
  )

  -- When the server says that a member has left, whose id has no bar, the members and the calls are
  -- those that `removePeer` leaves: there is no peer of that id, and the connection that it had, where
  -- the connections and the peers are the same, is not open.
  pub leaver_removed :
      (c : Chat Calls) (at : Moment) (id : Text) (i : ℕ)
      → Lacks b'|' id
      → IsPaired c.rtc
      → pc_at c.rtc.peers id ≡ some i
      → let d = handle_text_message (web_rtc p) c at (lit "LEAVE|" ++ id) in
        (d.member_list ≡ (remove_peer c.rtc c.member_list id).1)
        × (d.rtc ≡ (remove_peer c.rtc c.member_list id).0)
        × (lookup id d.rtc.peers ≡ none)
        × (owner d.rtc.connections i ≡ none)
  unfolding handle_text_message starts_with remove_peer
  leaver_removed c at id i h q e =
      let s = on_leave-remove_peer c id in
      rw (leaver_of id h, s.0, s.1)
        (
          refl,
          refl,
          lookup-close_peer c.rtc id,
          ground (arith, owner-close_peer c.rtc id i, e, nat_beq_iff i i),
        )
