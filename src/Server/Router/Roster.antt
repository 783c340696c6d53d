-- ===== src/Server/Router/Roster.antt =====
-- The list of the members, as the server sends it (src/app/AppRouter.cpp) and as the client reads it
-- (web/src/composables/useChat.js).
use chat_serve.Base.{
  ℕ, ◌<◌, ◌≡◌, refl, ap, List, [], ◌∷◌, ◌++◌, map, append-nil, nat_eq, list_eq, length, All, arith,
}
use chat_serve.Text.{lit, join, Lacks, starts_with}
use chat_serve.Text.Number.{show, show-head, show-Lacks}
use chat_serve.Chat.State.{Chat, Moment, Rtc, Member}
use chat_serve.Chat.Routing.{handle_text_message}
use chat_serve.Chat.Messages.{print_member, IsPlain, parse_members-print}
use chat_serve.Server.Parser.{build_frame, add_params}
use chat_serve.Server.State.{Entry}
use chat_serve.Server.Router.{member_text, build_members_frame}

-- A member as the client keeps it
abbrev pub as_member : Entry → Member
as_member e = record { id = show e.sess.fd; nick = e.nick }

members-print : (es : List Entry) → map member_text es ≡ map print_member (map as_member es)
unfolding member_text
members-print [] = refl
members-print (e ∷ es) = ap (member_text e ∷◌) (members-print es)

-- No nickname has a comma.
abbrev pub ArePlain : List Entry → Type 0
ArePlain = All λ e. Lacks b',' e.nick

show_full : (n : ℕ) → 0 < length (show n)
show_full n = let (c, s, e, h, k) = show-head n in rw e (omega arith)

ArePlain-IsPlain : (es : List Entry) → ArePlain es → All IsPlain (map as_member es)
ArePlain-IsPlain [] h = tt
ArePlain-IsPlain (e ∷ es) h =
    let fd = e.sess.fd in
    ((show_full fd, show-Lacks b':' fd refl, show-Lacks b',' fd refl, h.0), ArePlain-IsPlain es h.1)

-- The client reads the list of members that the server sends as it was.
members_frame_lem {ℓ} :
    {R : Type ℓ} (rtc : Rtc R) (c : Chat R) (at : Moment) (e : Entry) (es : List Entry)
    → ArePlain (e ∷ es)
    → handle_text_message rtc c at (build_members_frame (e ∷ es))
      ≡ record c { member_list = map as_member (e ∷ es) }
unfolding handle_text_message starts_with build_members_frame build_frame add_params
members_frame_lem rtc c at e es h =
    rw (append-nil (join (lit ",") (map member_text (e ∷ es))), members-print (e ∷ es))
      (ap (λ ms. record c { member_list = ms })
        (parse_members-print (as_member e) (map as_member es) (ArePlain-IsPlain (e ∷ es) h)))

ArePlain-append :
    (es : List Entry) (x : Entry) → ArePlain es → Lacks b',' x.nick → ArePlain (es ++ x ∷ [])
ArePlain-append [] x h k = (k, tt)
ArePlain-append (e ∷ es) x h k = (h.0, ArePlain-append es x h.1 k)

pub members_frame_last {ℓ} :
    {R : Type ℓ} (rtc : Rtc R) (c : Chat R) (at : Moment) (es : List Entry) (x : Entry)
    → ArePlain es
    → Lacks b',' x.nick
    → handle_text_message rtc c at (build_members_frame (es ++ x ∷ []))
      ≡ record c { member_list = map as_member (es ++ x ∷ []) }
members_frame_last rtc c at [] x h k = members_frame_lem rtc c at x [] (k, tt)
members_frame_last rtc c at (e ∷ es) x h k =
    members_frame_lem rtc c at e (es ++ x ∷ []) (h.0, ArePlain-append es x h.1 k)
