-- ===== src/View/ChatView.antt =====
-- web/src/components/ChatView.vue: the line that the user writes, its keys, and the file input.
use chat_serve.Base.{
  ℕ, ◌≡◌, refl, Bool-cases, inl, inr, ap, ◌∙◌, sym, subst, All, ◌≢◌, Bool, true, false, not, ◌&&◌,
  ◌||◌, List, [], ◌∷◌, some, if◌then◌else◌, arith, leb, nat_beq, min, ◌===◌, list_eq, nat_eq,
}
use chat_serve.Text.{Text, lit}
use chat_serve.Transfer.State.{File, Transfer}
use chat_serve.Transfer.Upload.{select_file}
use chat_serve.Chat.State.{Status, connected, reconnecting, disconnected}

-- The white space that `trim` takes away
abbrev pub is_space : ℕ → Bool
is_space c =
    (leb 9 c && leb c 13)
    || (nat_beq c 32
        || (nat_beq c 160
            || (nat_beq c 5760
                || ((leb 8192 c && leb c 8202)
                    || (nat_beq c 8232
                        || (nat_beq c 8233
                            || (nat_beq c 8239
                                || (nat_beq c 8287 || (nat_beq c 12288 || nat_beq c 65279)))))))))

unfoldable pub trim_start : Text → Text
trim_start [] = []
trim_start (c ∷ s) = if is_space c then trim_start s else c ∷ s

-- Whether a text is white space
abbrev pub is_blank : Text → Bool
is_blank [] = true
is_blank (c ∷ s) = if is_space c then is_blank s else false

unfoldable pub trim_end : Text → Text
trim_end [] = []
trim_end (c ∷ s) = if is_blank (c ∷ s) then [] else c ∷ trim_end s

abbrev pub trim : Text → Text
trim s = trim_end (trim_start s)

-- A key as `keydown` tells it
pub record Key : Type 0 where
  pub key : Text
  pub key_code : ℕ
  pub is_composing : Bool
  pub shift_key : Bool
  pub ctrl_key : Bool
  pub alt_key : Bool
  pub meta_key : Bool

-- What the line does: it prevents the key's own effect, emits `send`, and at `nextTick` shrinks the
-- line and has the list of messages scroll to the latest.
pub data Act : Type 0 where
  prevent_default : Act
  emit_send : Text → Act
  shrink_and_scroll : Act

-- `send`, with what is left in the line
unfoldable pub send : (msg : Text) → Text × List Act
unfolding trim_start trim_end
send msg = elim (trim msg) [
  | [] ↦ (msg, [])
  | c ∷ t ↦ ([], emit_send (c ∷ t) ∷ shrink_and_scroll ∷ [])
]

-- The two guards of `onKeydown`
abbrev pub is_of_input_method : Key → Bool
is_of_input_method e = e.is_composing || nat_beq e.key_code 229

abbrev pub is_no_send : Key → Bool
is_no_send e =
    not (e.key === lit "Enter") || (e.shift_key || (e.ctrl_key || (e.alt_key || e.meta_key)))

unfoldable pub on_keydown : (msg : Text) → Key → Text × List Act
unfolding send
on_keydown msg e =
    if is_of_input_method e
    then (msg, [])
    else if is_no_send e
    then (msg, [])
    else (let (rest, acts) = send msg in (rest, prevent_default ∷ acts))

-- `onFile`, with the files that were chosen
unfoldable pub on_file : Transfer → List File → Transfer
on_file t [] = t
on_file t (file ∷ _) = select_file t (some file)

abbrev pub max_input_height : ℕ
max_input_height = 120

-- `growInput`: the height that the line gets
unfoldable pub grow_input : (scroll_height : ℕ) → ℕ
grow_input scroll_height = min scroll_height max_input_height

unfoldable pub conn_text : Status → Text
conn_text connected = lit "已连接"
conn_text reconnecting = lit "重连中"
conn_text disconnected = lit "未连接"

is_blank-trim_end : (s : Text) → is_blank (trim_end s) ≡ is_blank s
unfolding trim_end
is_blank-trim_end [] = refl
is_blank-trim_end (c ∷ s) = ground (arith, is_blank-trim_end s)

keep-trim_end : (c : ℕ) (s : Text) → is_blank (c ∷ s) ≡ false → trim_end (c ∷ s) ≡ c ∷ trim_end s
unfolding trim_end
keep-trim_end c s e = ap (λ (b : Bool). if b then [] else c ∷ trim_end s) e

trim_end_twice : (s : Text) → trim_end (trim_end s) ≡ trim_end s
unfolding trim_end
trim_end_twice [] = refl
trim_end_twice (c ∷ s) = elim (Bool-cases (is_blank (c ∷ s))) [
  | inl e ↦ rw (trim_end, e) refl
  | inr e ↦
      let k = keep-trim_end c s e in
      let l = keep-trim_end c (trim_end s) (ground (arith, is_blank-trim_end s, e)) in
      ap trim_end k ∙ l ∙ ap (c ∷◌) (trim_end_twice s) ∙ sym k
]

-- A text without white space at its start
trim_word : (c : ℕ) (s : Text) → is_space c ≡ false → trim (c ∷ s) ≡ c ∷ trim_end s
unfolding trim_start
trim_word c s e =
    ap trim_end (ap (λ (b : Bool). if b then trim_start s else c ∷ s) e)
    ∙ keep-trim_end c s (ground (arith, e))

-- `trim` takes everything away at once.
pub trim_twice : (s : Text) → trim (trim s) ≡ trim s
unfolding trim_start trim_end
trim_twice [] = refl
trim_twice (c ∷ s) = elim (Bool-cases (is_space c)) [
  | inl e ↦
      let q : trim (c ∷ s) ≡ trim s =
        ap trim_end (ap (λ (b : Bool). if b then trim_start s else c ∷ s) e) in
      subst (λ x. trim x ≡ x) (sym q) (trim_twice s)
  | inr e ↦
      let q = trim_word c s e in
      subst (λ x. trim x ≡ x) (sym q) (trim_word c (trim_end s) e ∙ ap (c ∷◌) (trim_end_twice s))
]

-- What `send` emits is a text that is not empty and has no white space at its ends.
abbrev pub IsClean : Act → Type 0
IsClean prevent_default = Unit
IsClean shrink_and_scroll = Unit
IsClean (emit_send t) = (trim t ≡ t) × (t ≢ [])

emitted :
    (msg t : Text)
    → trim t ≡ t
    → All IsClean
        (elim t as (λ _. Text × List Act) [
          | [] ↦ (msg, [])
          | c ∷ t' ↦ ([], emit_send (c ∷ t') ∷ shrink_and_scroll ∷ [])
        ]).1
emitted msg [] h = tt
emitted msg (c ∷ t) h = ((h, λ e. ground (arith, e)), (tt, tt))

in_both :
    (b : Bool) (x y : Text × List Act)
    → All IsClean x.1
    → All IsClean y.1
    → All IsClean (if b then x else y).1
in_both true x y h k = h
in_both false x y h k = k

send-IsClean : (msg : Text) → All IsClean (send msg).1
unfolding send
send-IsClean msg = emitted msg (trim msg) (trim_twice msg)

-- Whatever key is pressed with whatever in the line, a text that is sent is not empty and has no
-- white space at its ends.
pub on_keydown-IsClean : (msg : Text) (e : Key) → All IsClean (on_keydown msg e).1
unfolding on_keydown
on_keydown-IsClean msg e =
    let sent : Text × List Act = ((send msg).0, prevent_default ∷ (send msg).1) in
    in_both (is_of_input_method e) (msg, []) (if is_no_send e then (msg, []) else sent) tt
      (in_both (is_no_send e) (msg, []) sent tt (tt, send-IsClean msg))
