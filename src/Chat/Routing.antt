-- ===== src/Chat/Routing.antt =====
-- `handleTextMessage` and `handleBinaryMessage` of `useChat`: the server's messages, each to the
-- component that it is for. The ladder of prefixes is in three parts, as the source's comments
-- divide it.
use chat_serve.Base.{
  ℕ, ◌+◌, Bool, true, false, not, List, [], ◌∷◌, map, none, some, if◌then◌else◌, ltb, leb, ◌===◌,
  list_eq, nat_eq, filter, find, length, get_or, drop,
}
use chat_serve.Text.{
  Text, lit, starts_with, split, join, index_of, index_of_from, substring, substring_from,
}
use chat_serve.Text.Number.{parse_int}
use chat_serve.Notice.{Notice, plain, server_error, reconnected, entered, left, came}
use chat_serve.Transfer.Frame.{Bytes}
use chat_serve.Transfer.State.{Effect}
use chat_serve.Transfer.Upload.{handle_dwreq, handle_upok}
use chat_serve.Transfer.Receive.{
  handle_leave, handle_file, handle_dwstart, handle_dwdata, handle_dwndone, handle_dwerr,
  handle_binary,
}
use chat_serve.Chat.State.{
  Moment, Member, self, other, Chat, add_system, add_chat, perform_all, with_ft, nick_of, Rtc,
}

-- A member's entry in `MEMBERS|`: `id:nick`, or the nickname alone where no colon stands behind
-- its first unit
unfoldable pub parse_member : Text → Member
parse_member p = elim (index_of b':' p) [
  | none ↦ record { id = p; nick = p }
  | some sep ↦
      if ltb 0 sep
      then record { id = substring p 0 sep; nick = substring_from p (sep + 1) }
      else record { id = p; nick = p }
]

abbrev pub is_not_empty : Text → Bool
is_not_empty [] = false
is_not_empty (_ ∷ _) = true

unfoldable pub parse_members : Text → List Member
unfolding parse_member
parse_members [] = []
parse_members (c ∷ raw) = map parse_member (filter is_not_empty (split b',' (c ∷ raw)))

-- `parts[i]`, in range or behind a test of the length
abbrev pub part : List Text → ℕ → Text
part parts i = get_or parts i []

abbrev pub fields : Text → List Text
fields = split b'|'

module _ {ℓ} {R : Type ℓ} where
  unfoldable pub on_ok : Chat R → List Text → Chat R
  unfolding add_system
  on_ok c parts =
      let d = record c {
        joined = true;
        room_name = part parts 1;
        my_id = part parts 2;
        messages = [];
      } in
      if c.is_reconnect
      then add_system (record d { is_reconnect = false }) reconnected
      else add_system d (entered (part parts 1))

  unfoldable pub on_msg : Chat R → Moment → Text → Chat R
  unfolding add_chat
  on_msg c at rest = elim (index_of b'|' rest) [
    | none ↦ c
    | some idx1 ↦
        let sender_id = substring rest 0 idx1 in
        let line = substring_from rest (idx1 + 1) in
        if sender_id === c.my_id
        then add_chat c at c.my_nick line self
        else add_chat c at (nick_of c.member_list sender_id) line other
  ]

  unfoldable pub on_sys : Chat R → Text → Chat R
  unfolding add_system
  on_sys c line =
      if starts_with line (lit "ERR|")
      then add_system c (server_error (substring_from line 4))
      else add_system c (plain line)

  -- `if (m) addSystemMessage(…)` for the member of that id
  unfoldable pub say_member : Chat R → Text → (Text → Notice) → Chat R
  unfolding add_system
  say_member c i notice = elim (find (λ m. m.id === i) c.member_list) [
    | none ↦ c
    | some m ↦ add_system c (notice m.nick)
  ]

  -- A step of `useWebRTC`, with its effects.
  unfoldable pub with_rtc : Chat R → R × List Effect → Chat R
  with_rtc c (rtc, es) = perform_all (record c { rtc = rtc }) es

  -- A signal `prefix|from|payload` whose payload begins behind the bar after `from`
  unfoldable pub on_signal : Text → ℕ → (Text → Text → Chat R) → Chat R → Chat R
  on_signal data' from use' c = elim (index_of_from b'|' data' from) [
    | none ↦ c
    | some idx1 ↦
        if ltb 0 idx1 then use' (substring data' from idx1) (substring_from data' (idx1 + 1)) else c
  ]

  -- The file transfer's messages
  unfoldable pub handle_file_message : Chat R → Moment → Text → Chat R
  handle_file_message c at data' =
      let parts = fields data' in
      if starts_with data' (lit "UPOK|")
      then with_ft c (handle_upok at.clock c.ft (substring_from data' 5))
      else if starts_with data' (lit "FILE|")
      then (if leb 5 (length parts)
          then with_ft c (
              handle_file at.clock c.ft (nick_of c.member_list (part parts 4)) (part parts 1)
                (part parts 2) (parse_int (part parts 3)) (part parts 4))
          else c)
      else if starts_with data' (lit "DWREQ|")
      then (if leb 5 (length parts)
          then with_ft c (
              handle_dwreq c.ft (part parts 1) (part parts 2) (parse_int (part parts 3))
                (parse_int (part parts 4)))
          else c)
      else if starts_with data' (lit "DWSTART|")
      then (if leb 4 (length parts)
          then record c {
            ft = handle_dwstart c.ft (part parts 1) (part parts 2) (parse_int (part parts 3));
          }
          else c)
      else if starts_with data' (lit "DWDATA|")
      then (if leb 5 (length parts)
          then record c {
            ft = handle_dwdata c.ft (part parts 1) (part parts 2) (parse_int (part parts 3));
          }
          else c)
      else if starts_with data' (lit "DWNDONE|")
      then with_ft c (handle_dwndone c.ft (substring_from data' 8))
      else if starts_with data' (lit "DWERR|")
      then (if leb 3 (length parts)
          then with_ft c (handle_dwerr c.ft (part parts 1) (join (lit "|") (drop 2 parts)))
          else c)
      else c

module _ {ℓ} {R : Type ℓ} (r : Rtc R) where
  unfoldable pub on_leave : Chat R → Text → Chat R
  on_leave c leaver_id =
      let d = say_member c leaver_id left in
      record d {
        ft = handle_leave d.ft leaver_id;
        rtc = r.close_peer d.rtc leaver_id;
        member_list = filter (λ m. not (m.id === leaver_id)) d.member_list;
      }

  unfoldable pub on_join : Chat R → Text → Chat R
  on_join c joiner_id =
      let d = say_member c joiner_id came in
      with_rtc d (r.connect_to d.my_id d.member_list d.rtc joiner_id)

  -- The signals of WebRTC
  unfoldable pub handle_signal : Chat R → Moment → Text → Chat R
  handle_signal c at data' =
      let parts = fields data' in
      if starts_with data' (lit "OFFER|")
      then on_signal data' 6
          (λ from sdp. with_rtc c (r.handle_offer c.rtc from (nick_of c.member_list from) sdp)) c
      else if starts_with data' (lit "ANSWER|")
      then on_signal data' 7 (λ from sdp. with_rtc c (r.handle_answer c.rtc from sdp)) c
      else if starts_with data' (lit "ICE|")
      then on_signal data' 4 (λ from cand. with_rtc c (r.handle_ice c.rtc from cand)) c
      else if starts_with data' (lit "MEDIA|")
      then (if leb 4 (length parts)
          then record c { rtc = r.handle_media c.rtc (part parts 1) (part parts 2) (part parts 3) }
          else c)
      else handle_file_message c at data'

  unfoldable pub handle_text_message : Chat R → Moment → Text → Chat R
  handle_text_message c at data' =
      if starts_with data' (lit "OK|")
      then on_ok c (fields data')
      else if starts_with data' (lit "MSG|")
      then on_msg c at (substring_from data' 4)
      else if starts_with data' (lit "SYS|")
      then on_sys c (substring_from data' 4)
      else if starts_with data' (lit "LEAVE|")
      then on_leave c (part (fields data') 1)
      else if starts_with data' (lit "JOIN|")
      then on_join c (part (fields data') 1)
      else if starts_with data' (lit "MEMBERS|")
      then record c { member_list = parse_members (substring_from data' 8) }
      else handle_signal c at data'

module _ {ℓ} {R : Type ℓ} where
  unfoldable pub handle_binary_message : Chat R → Bytes → Chat R
  handle_binary_message c data' = with_ft c (handle_binary c.ft data')
