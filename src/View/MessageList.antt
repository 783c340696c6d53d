-- ===== src/View/MessageList.antt =====
-- web/src/components/MessageList.vue: following the newest message, and the button that jumps to it.
use chat_serve.Base.{
  ℕ, ◌+◌, ◌-◌, ◌≤◌, ◌≡◌, ◌⊎◌, inl, inr, Bool, true, false, Option, none, some, if◌then◌else◌, ◌++◌,
  [], arith, ltb, Bool-cases,
}
use chat_serve.Text.{Text, lit}
use chat_serve.Transfer.State.{file_upload, file_notify}
use chat_serve.Chat.State.{Message, sys, said, file, self, other}

-- The element with its `scrollHeight`, `scrollTop` and `clientHeight`, in whole pixels
pub record Scroll : Type 0 where
  pub scroll_height : ℕ
  pub scroll_top : ℕ
  pub client_height : ℕ

pub record MessageView : Type 0 where
  pub el : Option Scroll
  pub show_jump : Bool

-- `e.scrollHeight - e.scrollTop - e.clientHeight < 40`
unfoldable pub is_near_bottom : MessageView → Bool
is_near_bottom v = elim v.el [
  | none ↦ true
  | some e ↦ ltb e.scroll_height (e.scroll_top + e.client_height + 40)
]

unfoldable pub on_scroll : MessageView → MessageView
unfolding is_near_bottom
on_scroll v = if is_near_bottom v then record v { show_jump = false } else v

-- `scrollTo` with the height of the content: the browser stops at the last position.
unfoldable pub scroll_to_bottom : MessageView → MessageView
scroll_to_bottom v = elim v.el [
  | none ↦ v
  | some e ↦ record v { el = some (record e { scroll_top = e.scroll_height - e.client_height }) }
]

unfoldable pub go_to_latest : MessageView → MessageView
unfolding scroll_to_bottom
go_to_latest v = record (scroll_to_bottom v) { show_jump = false }

-- The watch of the number of messages, before the page changes; the flag asks for a scroll after it.
unfoldable pub on_length : (prev len : ℕ) → MessageView → MessageView × Bool
unfolding is_near_bottom
on_length prev len v =
    if ltb len prev
    then (record v { show_jump = false }, false)
    else if is_near_bottom v
    then (v, true)
    else (record v { show_jump = true }, false)

-- The page grows by the new messages.
abbrev pub grow : ℕ → MessageView → MessageView
grow h v = elim v.el [
  | none ↦ v
  | some e ↦ record v { el = some (record e { scroll_height = e.scroll_height + h }) }
]

-- New messages of some height: the watch, the page, and what `nextTick` runs
unfoldable pub on_messages : (prev len height : ℕ) → MessageView → MessageView
unfolding on_length scroll_to_bottom
on_messages prev len height v =
    let (d, follows) = on_length prev len v in
    if follows then scroll_to_bottom (grow height d) else grow height d

unfoldable pub msg_class : Message → Text
msg_class (sys _) = lit "sys"
msg_class (said self _ _ _) = lit "self"
msg_class (said other _ _ _) = lit "other"
msg_class (file (file_upload _ _ _ _)) = lit "self"
msg_class (file (file_notify _ _ _ _ _ _)) = lit "other"

-- The name above a message; a message of the system has none.
unfoldable pub msg_name : Message → Text
msg_name (sys _) = []
msg_name (said self _ _ _) = lit "我"
msg_name (said other name _ _) = name
msg_name (file (file_upload _ _ _ _)) = lit "你上传了文件"
msg_name (file (file_notify sender _ _ _ _ _)) = sender ++ lit " 发送了文件"

abbrev pub top_of : MessageView → Option ℕ
top_of v = elim v.el [ none ↦ none | some e ↦ some e.scroll_top ]

-- When messages are added, however high: a list that is near its bottom is near it again, and the
-- button is as it was; a list that is not stays where it is, and shows the button.
pub messages_followed :
    (prev len height : ℕ) (v : MessageView)
    → prev ≤ len
    → ((is_near_bottom v ≡ true)
        × (is_near_bottom (on_messages prev len height v) ≡ true)
        × ((on_messages prev len height v).show_jump ≡ v.show_jump))
      ⊎ ((is_near_bottom v ≡ false)
          × (top_of (on_messages prev len height v) ≡ top_of v)
          × ((on_messages prev len height v).show_jump ≡ true))
unfolding on_messages on_length is_near_bottom scroll_to_bottom
messages_followed prev len height v h = elim (Bool-cases (is_near_bottom v)) [
  | inl e ↦ inl (e, ground (arith, e, h), ground (arith, e, h))
  | inr e ↦ inr (e, ground (arith, e, h), ground (arith, e, h))
]
