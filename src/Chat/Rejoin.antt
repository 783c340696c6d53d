-- ===== src/Chat/Rejoin.antt =====
-- `connect` after `leave` in `useChat`.
use chat_serve.Base.{
  ℕ, ◌≡◌, refl, sym, subst, ◌∙◌, ap, Bool, true, false, [], some, if◌then◌else◌, arith, nat_eq,
  lookup, lookup-insert_self,
}
use chat_serve.Text.{Text}
use chat_serve.Chat.State.{Chat, Page, Rtc, Socket, connecting, closed, disconnected, change_socket}
use chat_serve.Chat.Connection.{connect, open_socket, leave, handle_disconnect}
use chat_serve.Chat.Link.{Link, link}
use chat_serve.Chat.Timers.{IsTidy, link-drop_timers}
use chat_serve.Chat.Ending.{leave-link}
use chat_serve.Chat.Events.{leaves, joins, shut, step, on_shut, set_ready_state}

-- The socket of a join, before it opens.
abbrev fresh : (room nick : Text) → Socket
fresh room nick = record {
  ready_state = connecting;
  room = room;
  nick = nick;
  onmessage = true;
  onclose = true;
}

timeouts-change_socket :
    (page : Page) (i : ℕ) (f : Socket → Socket) → (change_socket page i f).timeouts ≡ page.timeouts
timeouts-change_socket page i f = ground arith

if_true {ℓ} : {A : Type ℓ} (b : Bool) (x y : A) → b ≡ true → (if b then x else y) ≡ x
if_true true x y h = refl
if_true false x y h = absurd (ground (arith, h))

module _ {ℓ} {R : Type ℓ} (r : Rtc R) where
  connect_lem :
      (c : Chat R) (room nick : Text)
      → IsTidy (link c)
      → let d = connect c room nick in
        (d.is_leaving ≡ c.is_leaving)
        × (d.conn_status ≡ c.conn_status)
        × (d.page.timeouts ≡ [])
        × (lookup c.page.next_socket d.page.sockets ≡ some (fresh room nick))
  unfolding connect open_socket
  connect_lem c room nick h =
      let e = link-drop_timers c h in
      (
        ap (λ (l : Link). l.is_leaving) e,
        ap (λ (l : Link). l.conn_status) e,
        ap (λ (l : Link). l.timeouts) e,
        ap (λ n. lookup n (connect c room nick).page.sockets)
              (sym (ap (λ (l : Link). l.next_socket) e))
            ∙ lookup-insert_self _ (fresh room nick) _,
      )

  refused_lem :
      (c : Chat R) (i : ℕ) (room nick : Text)
      → c.is_leaving ≡ true
      → on_shut r c i (some (fresh room nick)) ≡ set_ready_state c i closed
  unfolding on_shut handle_disconnect
  refused_lem c i room nick h = if_true c.is_leaving (set_ready_state c i closed) _ h

  -- The user leaves, and joins again; the new socket closes before it opens, as where the server does
  -- not answer. The status stays disconnected and no reconnection is set, since `isLeaving` is still
  -- true, and it stays so.
  pub rejoin_not_retried :
      (c : Chat R) (room nick : Text)
      → IsTidy (link c)
      → let d = step r (step r (step r c leaves) (joins room nick)) (shut c.page.next_socket) in
        (d.conn_status ≡ disconnected) × (d.page.timeouts ≡ []) × (d.is_leaving ≡ true)
  unfolding step
  rejoin_not_retried c room nick h =
      let a = leave-link r c h in
      let n = c.page.next_socket in
      let (leaving, status, none_pending, found) =
        connect_lem (leave r c) room nick (rw a.2 tt, rw a.3 tt) in
      let d = connect (leave r c) room nick in
      let e =
        ap (on_shut r d n) (subst (λ k. lookup k d.page.sockets ≡ some (fresh room nick)) a.5 found)
        ∙ refused_lem d n room nick (leaving ∙ a.0) in
      (
        ap (λ (x : Chat R). x.conn_status) e ∙ status ∙ a.4,
        ap (λ (x : Chat R). x.page.timeouts) e ∙ timeouts-change_socket d.page n _ ∙ none_pending,
        ap (λ (x : Chat R). x.is_leaving) e ∙ leaving ∙ a.0,
      )
