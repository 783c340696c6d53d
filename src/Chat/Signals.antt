-- ===== src/Chat/Signals.antt =====
-- The signals between peers as the server sends them on, and `handleTextMessage` on them.
use chat_serve.Base.{
  ℕ, suc, ◌+◌, ◌-◌, max, min, ◌≡◌, refl, ap, subst, take-append, drop-append, ◌<◌, [], ◌∷◌, ◌++◌,
  arith, lt→ltb, length, drop, nat_eq, list_eq,
}
use chat_serve.Text.{Text, lit, starts_with, Lacks, substring, index_of_from}
use chat_serve.Text.Laws.{index_of-append}
use chat_serve.Chat.Messages.{drop_sep}
use chat_serve.Chat.State.{Chat, Moment, Rtc, nick_of}
use chat_serve.Chat.Routing.{handle_text_message, handle_signal, on_signal, with_rtc}

drop_behind : (s : Text) (n : ℕ) (rest : Text) → drop (length s + n) (s ++ rest) ≡ drop n rest
drop_behind [] n rest = let e : 0 + n ≡ n = omega arith in ap (λ m. drop m rest) e
drop_behind (c ∷ s) n rest =
    let e : suc (length s + n) ≡ suc (length s) + n = omega arith in
    subst (λ m. drop m (c ∷ (s ++ rest)) ≡ drop n rest) e (drop_behind s n rest)

-- The next `n` units behind a prefix
substring_behind :
    (s t rest : Text) → substring (s ++ (t ++ rest)) (length s) (length s + length t) ≡ t
unfolding substring
substring_behind s t rest =
    let e : max (length s) (length s + length t) - min (length s) (length s + length t) ≡ length t =
      omega arith in
    let f : min (length s) (length s + length t) ≡ length s = omega arith in
    rw (e, f, drop-append s (t ++ rest)) (take-append t rest)

module _ {ℓ} {R : Type ℓ} where
  on_signal_lem :
      (prefix from payload : Text) (use' : Text → Text → Chat R) (c : Chat R)
      → 0 < length prefix
      → Lacks b'|' from
      → on_signal (prefix ++ (from ++ b'|' ∷ payload)) (length prefix) use' c ≡ use' from payload
  unfolding on_signal index_of_from
  on_signal_lem prefix from payload use' c h k =
      let p = from ++ b'|' ∷ payload in
      let e : drop (length prefix) (prefix ++ p) ≡ p = drop-append prefix p in
      let t = lt→ltb 0 (length prefix + length from) (omega arith) in
      let f : length prefix + length from + 1 ≡ length prefix + (length from + 1) = omega arith in
      rw
        (
          e,
          index_of-append b'|' from payload k,
          on_signal,
          index_of_from,
          t,
          substring_behind prefix from (b'|' ∷ payload),
          f,
          drop_behind prefix (length from + 1) p,
          drop_sep b'|' from payload,
        )
        refl

module _ {ℓ} {R : Type ℓ} (r : Rtc R) (c : Chat R) (at : Moment) where
  -- An offer, as the server sends it on from a peer whose id has no bar, is handed to `useWebRTC`
  -- with that id, the nickname of the member, and the whole of the text behind the id.
  pub offer_lem :
      (from sdp : Text)
      → Lacks b'|' from
      → handle_text_message r c at (lit "OFFER|" ++ (from ++ b'|' ∷ sdp))
        ≡ with_rtc c (r.handle_offer c.rtc from (nick_of c.member_list from) sdp)
  unfolding handle_text_message handle_signal starts_with
  offer_lem from sdp h = on_signal_lem (lit "OFFER|") from sdp _ c (omega arith) h

  -- The same of an answer.
  pub answer_lem :
      (from sdp : Text)
      → Lacks b'|' from
      → handle_text_message r c at (lit "ANSWER|" ++ (from ++ b'|' ∷ sdp))
        ≡ with_rtc c (r.handle_answer c.rtc from sdp)
  unfolding handle_text_message handle_signal starts_with
  answer_lem from sdp h = on_signal_lem (lit "ANSWER|") from sdp _ c (omega arith) h

  -- The same of a candidate.
  pub ice_lem :
      (from candidate : Text)
      → Lacks b'|' from
      → handle_text_message r c at (lit "ICE|" ++ (from ++ b'|' ∷ candidate))
        ≡ with_rtc c (r.handle_ice c.rtc from candidate)
  unfolding handle_text_message handle_signal starts_with
  ice_lem from candidate h = on_signal_lem (lit "ICE|") from candidate _ c (omega arith) h
