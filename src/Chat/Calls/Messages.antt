-- ===== src/Chat/Calls/Messages.antt =====
-- The messages of the server and the state of `useWebRTC`.
use chat_serve.Base.{sym, subst, list_eq, nat_eq}
use chat_serve.Text.{Text}
use chat_serve.Notice.{left, came}
use chat_serve.Chat.State.{Chat, Moment, Rtc}
use chat_serve.Chat.Routing.{
  on_leave, on_join, say_member, with_rtc, handle_file_message, handle_signal, handle_text_message,
}
use chat_serve.Chat.Calls.{
  IsKept, Keeps, Keeps-of, Keeps-refl, Keeps-trans, Keeps-if, with_ft-Keeps, with_rtc-Keeps,
  set_ft-Keeps, set_rtc-Keeps, set_members-Keeps, on_ok-Keeps, on_msg-Keeps, on_sys-Keeps,
  on_signal-Keeps, say_member-rtc,
}

ruleset keep_rules = (
  Keeps-if, Keeps-refl, with_ft-Keeps, set_ft-Keeps, set_members-Keeps, on_signal-Keeps,
  on_ok-Keeps, on_msg-Keeps, on_sys-Keeps,
)

module _ {ℓ} {R : Type ℓ} {P : R → Type 0} where
  handle_file_message-Keeps :
      (c : Chat R) (at : Moment) (data' : Text) → Keeps P (handle_file_message c at data') c
  unfolding handle_file_message
  handle_file_message-Keeps c at data' = search keep_rules depth 20

module _ {ℓ} {R : Type ℓ} (r : Rtc R) {P : R → Type 0} (k : IsKept r P) where
  offer-Keeps :
      (c : Chat R) (from nick sdp : Text)
      → Keeps P (with_rtc c (r.handle_offer c.rtc from nick sdp)) c
  offer-Keeps c from nick sdp = with_rtc-Keeps c _ (k.handle_offer c.rtc from nick sdp)

  answer-Keeps :
      (c : Chat R) (from sdp : Text) → Keeps P (with_rtc c (r.handle_answer c.rtc from sdp)) c
  answer-Keeps c from sdp = with_rtc-Keeps c _ (k.handle_answer c.rtc from sdp)

  ice-Keeps :
      (c : Chat R) (from candidate : Text)
      → Keeps P (with_rtc c (r.handle_ice c.rtc from candidate)) c
  ice-Keeps c from candidate = with_rtc-Keeps c _ (k.handle_ice c.rtc from candidate)

  media-Keeps :
      (c : Chat R) (from kind state : Text)
      → Keeps P (record c { rtc = r.handle_media c.rtc from kind state }) c
  media-Keeps c from kind state = set_rtc-Keeps c _ (k.handle_media c.rtc from kind state)

  handle_signal-Keeps :
      (c : Chat R) (at : Moment) (data' : Text) → Keeps P (handle_signal r c at data') c
  unfolding handle_signal
  handle_signal-Keeps c at data' =
      search
        (keep_rules, offer-Keeps, answer-Keeps, ice-Keeps, media-Keeps, handle_file_message-Keeps)
        depth 20

  on_leave-Keeps : (c : Chat R) (i : Text) → Keeps P (on_leave r c i) c
  unfolding on_leave
  on_leave-Keeps c i = record {
    kept = λ h. k.close_peer _ i (subst P (sym (say_member-rtc c i left)) h);
  }

  on_join-Keeps : (c : Chat R) (i : Text) → Keeps P (on_join r c i) c
  unfolding on_join
  on_join-Keeps c i =
      let d = say_member c i came in
      Keeps-trans _ d c (with_rtc-Keeps d _ (k.connect_to d.my_id d.member_list d.rtc i))
        (Keeps-of d c (say_member-rtc c i came))

  pub handle_text_message-Keeps :
      (c : Chat R) (at : Moment) (data' : Text) → Keeps P (handle_text_message r c at data') c
  unfolding handle_text_message
  handle_text_message-Keeps c at data' =
      search (keep_rules, handle_signal-Keeps, on_leave-Keeps, on_join-Keeps) depth 20
