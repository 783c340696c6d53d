-- ===== src/Tests/View.antt =====
-- A page with a card, a grid and a list of messages, with the theorems at their states.
use chat_serve.Base.{
  ◌≡◌, refl, ap, subst, arith, Option, true, false, List, [], ◌∷◌, some, none, nat, All, list_eq,
  nat_eq, lookup,
}
use chat_serve.Text.{lit}
use chat_serve.Text.Number.{show}
use chat_serve.Transfer.State.{DownloadSession, Transfer, initial, FileMessage, file_notify}
use chat_serve.Transfer.Assembly.{IsFull}
use chat_serve.Chat.State.{Member}
use chat_serve.WebRtc.State.{Calls, new_calls}
use chat_serve.View.FileCard.{card, buttons, progress, percent}
use chat_serve.View.CardMoves.{Clicks}
use chat_serve.View.CardClicks.{card-Clicks}
use chat_serve.View.VideoGrid.{update_videos, update_videos_lem, has_live_video}
use chat_serve.View.ChatView.{
  Key, emit_send, prevent_default, shrink_and_scroll, on_keydown, send, trim_start, trim_end,
}

-- A download that is paused with two of three bytes
abbrev halted : DownloadSession
halted = record {
  chunks = (0, 7 ∷ 8 ∷ []) ∷ [];
  received = 2;
  total = nat 3;
  filename = lit "a";
  paused = true;
}

abbrev sharing : Transfer
sharing = record initial {
  download_sessions = (lit "f1", halted) ∷ [];
  file_senders = (lit "f1", lit "5") ∷ [];
}

abbrev shared : FileMessage
shared = file_notify (lit "bob") (lit "f1") (lit "a") (nat 3) (lit "5") (lit "12:00")

halted-progress : progress (some halted) ≡ lit "67%"
unfolding progress percent show
halted-progress = refl

halted-IsFull :
    (s : DownloadSession)
    → lookup (lit "f1") sharing.download_sessions ≡ some s
    → All (λ c. IsFull c.1) s.chunks
unfolding lookup
halted-IsFull s e =
    subst (λ (x : DownloadSession). All (λ c. IsFull c.1) x.chunks)
      (ap (λ (o : Option DownloadSession). elim o [ none ↦ halted | some x ↦ x ]) e)
      (omega arith, tt)

card-Clicks_example : All (Clicks sharing shared) (buttons (card sharing shared))
card-Clicks_example = card-Clicks sharing shared halted-IsFull

-- `ann` with her camera on, beside `bob`
abbrev filming : Calls
filming = record new_calls { cam_on = true; my_stream = some [] }

abbrev couple : List Member
couple = record { id = lit "4"; nick = lit "ann" } ∷ record { id = lit "5"; nick = lit "bob" } ∷ []

update_videos_example :
    lookup (lit "4") (
      update_videos filming
        (lit "4")
        ((lit "4", true) ∷ (lit "5", true) ∷ [])
        couple
        ((lit "9", true) ∷ []))
    ≡ some true
unfolding has_live_video lookup
update_videos_example =
    update_videos_lem filming (lit "4") ((lit "4", true) ∷ (lit "5", true) ∷ []) couple
      ((lit "9", true) ∷ []) (lit "4")

abbrev enter : Key
enter = record {
  key = lit "Enter";
  key_code = 13;
  is_composing = false;
  shift_key = false;
  ctrl_key = false;
  alt_key = false;
  meta_key = false;
}

enter_sends :
    on_keydown (lit " hi ") enter
    ≡ ([], prevent_default ∷ emit_send (lit "hi") ∷ shrink_and_scroll ∷ [])
unfolding on_keydown send trim_start trim_end
enter_sends = refl
