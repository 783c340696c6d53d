-- ===== src/Chat/Messages.antt =====
-- The messages of the server as text, and `handleTextMessage` on them.
use chat_serve.Base.{
  ℕ, suc, ◌+◌, ◌-◌, max, min, ◌≡◌, refl, ap, sym, ◌∙◌, take-append, ◌<◌, true, List, [], ◌∷◌, ◌++◌,
  map, if◌then◌else◌, arith, All, nat, lt→ltb, append-nil, length, drop, filter, ◌===◌, list_eq,
  nat_eq,
}
use chat_serve.Text.{Text, lit, join, split, starts_with, Lacks, substring}
use chat_serve.Text.Laws.{split-join, index_of-append}
use chat_serve.Text.Number.{show, parse_int-show, show-Lacks}
use chat_serve.Transfer.Upload.{handle_dwreq}
use chat_serve.Transfer.Receive.{handle_dwdata}
use chat_serve.Chat.State.{Chat, Member, Moment, Rtc, with_ft, nick_of, add_chat, self, other}
use chat_serve.Chat.Routing.{
  handle_text_message, handle_signal, handle_file_message, fields, on_msg, parse_members,
  parse_member, is_not_empty,
}

-- The fields of a message that the server builds of them.
fields_of :
    (kind a b : Text) (n m : ℕ)
    → Lacks b'|' kind
    → Lacks b'|' a
    → Lacks b'|' b
    → fields (join (lit "|") (kind ∷ a ∷ b ∷ show n ∷ show m ∷ []))
      ≡ kind ∷ a ∷ b ∷ show n ∷ show m ∷ []
fields_of kind a b n m h k l =
    split-join b'|' kind (a ∷ b ∷ show n ∷ show m ∷ []) h
      (k, (l, (show-Lacks b'|' n refl, (show-Lacks b'|' m refl, tt))))

substring_0 : (s rest : Text) → substring (s ++ rest) 0 (length s) ≡ s
unfolding substring
substring_0 s rest =
    let e : max 0 (length s) - min 0 (length s) ≡ length s = omega arith in
    let f : min 0 (length s) ≡ 0 = omega arith in rw (e, f) (take-append s rest)

pub drop_sep : (sep : ℕ) (s rest : Text) → drop (length s + 1) (s ++ sep ∷ rest) ≡ rest
drop_sep sep [] rest = refl
drop_sep sep (c ∷ s) rest =
    let e : suc (length s) + 1 ≡ suc (length s + 1) = omega arith in rw e (drop_sep sep s rest)

module _ {ℓ} {R : Type ℓ} where
  on_msg_lem :
      (c : Chat R) (at : Moment) (sender line : Text)
      → Lacks b'|' sender
      → on_msg c at (sender ++ b'|' ∷ line) ≡ (
          if sender === c.my_id
          then add_chat c at c.my_nick line self
          else add_chat c at (nick_of c.member_list sender) line other)
  unfolding on_msg
  on_msg_lem c at sender line h =
      rw
        (
          index_of-append b'|' sender line h,
          on_msg,
          substring_0 sender (b'|' ∷ line),
          drop_sep b'|' sender line,
        )
        refl

module _ {ℓ} {R : Type ℓ} (r : Rtc R) where
  -- A line of the room, from a sender whose id has no bar, is shown with its text whole, bars
  -- included, and under the name of its sender: the user's own nickname where the id is the
  -- user's, or else that of the member with that id, or the id.
  pub said_lem :
      (c : Chat R) (at : Moment) (sender line : Text)
      → Lacks b'|' sender
      → handle_text_message r c at (lit "MSG|" ++ (sender ++ b'|' ∷ line)) ≡ (
          if sender === c.my_id
          then add_chat c at c.my_nick line self
          else add_chat c at (nick_of c.member_list sender) line other)
  unfolding handle_text_message starts_with
  said_lem c at sender line h = on_msg_lem c at sender line h

  -- The server's announcement of a chunk, as it builds it of fields without bars and two numbers,
  -- is routed to the download with just these fields and the offset.
  pub dwdata_lem :
      (c : Chat R) (at : Moment) (session file : Text) (offset size : ℕ)
      → Lacks b'|' session
      → Lacks b'|' file
      → handle_text_message r c at
          (join (lit "|") (lit "DWDATA" ∷ session ∷ file ∷ show offset ∷ show size ∷ []))
        ≡ record c { ft = handle_dwdata c.ft session file (nat offset) }
  unfolding handle_text_message handle_signal handle_file_message starts_with join
  dwdata_lem c at session file offset size h k =
      let e =
        fields_of (lit "DWDATA") session file offset size
          (refl, (refl, (refl, (refl, (refl, (refl, tt)))))) h k in
      rw (e, parse_int-show offset) refl

  -- The server's request for a chunk, as it builds it of fields without bars and two numbers, is
  -- routed to the upload with just these fields and numbers, and its effects are performed.
  dwreq_lem :
      (c : Chat R) (at : Moment) (session file : Text) (offset size : ℕ)
      → Lacks b'|' session
      → Lacks b'|' file
      → handle_text_message r c at
          (join (lit "|") (lit "DWREQ" ∷ session ∷ file ∷ show offset ∷ show size ∷ []))
        ≡ with_ft c (handle_dwreq c.ft session file (nat offset) (nat size))
  unfolding handle_text_message handle_signal handle_file_message starts_with join
  dwreq_lem c at session file offset size h k =
      let e =
        fields_of (lit "DWREQ") session file offset size (refl, (refl, (refl, (refl, (refl, tt)))))
          h k in
      rw (e, parse_int-show offset, parse_int-show size) refl

-- A list of members as the server prints it.
abbrev pub print_member : Member → Text
print_member m = m.id ++ b':' ∷ m.nick

abbrev pub print_members : List Member → Text
print_members ms = join (lit ",") (map print_member ms)

-- A member whose id is not empty and has neither colon nor comma, and whose nickname has no comma.
abbrev pub IsPlain : Member → Type 0
IsPlain m = (0 < length m.id) × Lacks b':' m.id × Lacks b',' m.id × Lacks b',' m.nick

Lacks-append : (c : ℕ) (s t : Text) → Lacks c s → Lacks c t → Lacks c (s ++ t)
Lacks-append c [] t h k = k
Lacks-append c (d ∷ s) t h k = (h.0, Lacks-append c s t h.1 k)

parse_member-print : (m : Member) → IsPlain m → parse_member (print_member m) ≡ m
unfolding parse_member
parse_member-print m h =
    rw
      (
        index_of-append b':' m.id m.nick h.1,
        parse_member,
        lt→ltb 0 (length m.id) h.0,
        substring_0 m.id (b':' ∷ m.nick),
        drop_sep b':' m.id m.nick,
      )
      refl

-- None of them is printed as nothing.
printed : (s t rest : Text) → is_not_empty ((s ++ b':' ∷ t) ++ rest) ≡ true
printed [] t rest = refl
printed (c ∷ s) t rest = refl

print_members-printed :
    (m : Member) (ms : List Member) → is_not_empty (print_members (m ∷ ms)) ≡ true
unfolding join
print_members-printed m [] = rw⁻¹ (append-nil (print_member m)) (printed m.id m.nick [])
print_members-printed m (n ∷ ms) = printed m.id m.nick _

parse_members-cons :
    (s : Text)
    → is_not_empty s ≡ true
    → parse_members s ≡ map parse_member (filter is_not_empty (split b',' s))
unfolding parse_members
parse_members-cons [] h = absurd (ground arith)
parse_members-cons (c ∷ s) h = refl

filter-print : (ms : List Member) → filter is_not_empty (map print_member ms) ≡ map print_member ms
filter-print [] = refl
filter-print (m ∷ ms) =
    rw
      (
        ap is_not_empty (sym (append-nil (print_member m))) ∙ printed m.id m.nick [],
        filter-print ms,
      )
      refl

map-parse : (ms : List Member) → All IsPlain ms → map parse_member (map print_member ms) ≡ ms
map-parse [] h = refl
map-parse (m ∷ ms) h = rw (parse_member-print m h.0, map-parse ms h.1) refl

print-Lacks : (ms : List Member) → All IsPlain ms → All (Lacks b',') (map print_member ms)
print-Lacks [] h = tt
print-Lacks (m ∷ ms) h =
    (Lacks-append b',' m.id (b':' ∷ m.nick) h.0.2 (refl, h.0.3), print-Lacks ms h.1)

-- A list of members that is not empty, printed as `id:nick` with commas between, is read back as
-- it was, where no id is empty or has a colon or a comma, and no nickname has a comma.
pub parse_members-print :
    (m : Member) (ms : List Member)
    → All IsPlain (m ∷ ms)
    → parse_members (print_members (m ∷ ms)) ≡ m ∷ ms
parse_members-print m ms h =
    let l = print-Lacks (m ∷ ms) h in
    parse_members-cons (print_members (m ∷ ms)) (print_members-printed m ms)
    ∙ rw (split-join b',' (print_member m) (map print_member ms) l.0 l.1)
        (ap (map parse_member) (filter-print (m ∷ ms)) ∙ map-parse (m ∷ ms) h)
