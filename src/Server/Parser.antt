-- ===== src/Server/Parser.antt =====
-- `AppParser` and `AppMessage` of the server (src/app/AppParser.cpp, include/app/AppMessage.h).
use chat_serve.Base.{
  ℕ, zero, suc, ◌+◌, ◌≤◌, ◌≡◌, refl, ap, ◌∙◌, List, [], ◌∷◌, ◌++◌, none, some, take, drop, length,
  arith, All, take-append, append-nil,
}
use chat_serve.Text.{Text, index_of, Lacks}
use chat_serve.Text.Laws.{index_of-append, index_of-Lacks}
use chat_serve.Chat.Messages.{drop_sep}

pub record AppMessage : Type 0 where
  pub command : Text
  pub params : List Text
  pub rest : Text

-- The loop of `parse` from `start` on. Each round takes at least one character, so the length of
-- the text is enough fuel.
unfoldable pub parse_params : ℕ → Text → List Text
parse_params zero s = []
parse_params (suc fuel) [] = []
parse_params (suc fuel) (c ∷ s) = elim (index_of b'|' (c ∷ s)) [
  | none ↦ (c ∷ s) ∷ []
  | some next ↦ take next (c ∷ s) ∷ parse_params fuel (drop (next + 1) (c ∷ s))
]

-- A text with no bar is no command, and gives an empty one.
unfoldable pub parse : Text → AppMessage
unfolding parse_params
parse s = elim (index_of b'|' s) [
  | none ↦ record { command = []; params = []; rest = [] }
  | some pipe ↦
      let rest = drop (pipe + 1) s in
      record { command = take pipe s; params = parse_params (length rest) rest; rest = rest }
]

unfoldable pub add_params : List Text → Text
add_params [] = []
add_params (p ∷ ps) = b'|' ∷ (p ++ add_params ps)

unfoldable pub build_frame : Text → List Text → Text
unfolding add_params
build_frame command params = command ++ add_params params

-- The parameters without a last one that is empty.
abbrev pub read_params : List Text → List Text
read_params [] = []
read_params ([] ∷ []) = []
read_params ((c ∷ s) ∷ []) = (c ∷ s) ∷ []
read_params (p ∷ q ∷ ps) = p ∷ read_params (q ∷ ps)

-- What follows the first bar of a frame with these parameters.
abbrev pub body : Text → List Text → Text
unfolding add_params
body p ps = p ++ add_params ps

length-bar : (p rest : Text) → length (p ++ b'|' ∷ rest) ≡ suc (length p + length rest)
length-bar [] rest = omega arith
length-bar (c ∷ p) rest = omega (arith, length-bar p rest)

parse_step :
    (fuel : ℕ) (p rest : Text)
    → Lacks b'|' p
    → parse_params (suc fuel) (p ++ b'|' ∷ rest) ≡ p ∷ parse_params fuel rest
unfolding parse_params index_of
parse_step fuel [] rest h = refl
parse_step fuel (c ∷ p) rest h =
    rw
      (
        parse_params,
        index_of-append b'|' (c ∷ p) rest h,
        take-append (c ∷ p) (b'|' ∷ rest),
        drop_sep b'|' (c ∷ p) rest,
      )
      refl

parse_last :
    (fuel : ℕ) (c : ℕ) (p : Text)
    → Lacks b'|' (c ∷ p)
    → parse_params (suc fuel) (c ∷ p) ≡ (c ∷ p) ∷ []
unfolding parse_params
parse_last fuel c p h = rw (parse_params, index_of-Lacks b'|' (c ∷ p) h) refl

parse_params-body :
    (ps : List Text) (fuel : ℕ) (p : Text)
    → length (body p ps) ≤ fuel
    → Lacks b'|' p
    → All (Lacks b'|') ps
    → parse_params fuel (body p ps) ≡ read_params (p ∷ ps)
unfolding add_params parse_params
parse_params-body [] zero [] n h k = refl
parse_params-body [] (suc fuel) [] n h k = refl
parse_params-body [] zero (c ∷ p) n h k = absurd (omega arith)
parse_params-body [] (suc fuel) (c ∷ p) n h k = rw (append-nil p) (parse_last fuel c p h)
parse_params-body (q ∷ ps) zero p n h k = absurd (omega (arith, length-bar p (body q ps)))
parse_params-body (q ∷ ps) (suc fuel) p n h k =
    parse_step fuel p (body q ps) h
    ∙ ap (p ∷◌) (parse_params-body ps fuel q (omega (arith, length-bar p (body q ps))) k.0 k.1)

-- A frame that is built of a command and of at least one parameter, none of them with a bar in
-- it, is parsed to the same command and the same parameters, less a last one that is empty; its
-- rest is the parameters with bars between.
pub parse-build_frame :
    (command p : Text) (ps : List Text)
    → Lacks b'|' command
    → Lacks b'|' p
    → All (Lacks b'|') ps
    → parse (build_frame command (p ∷ ps))
      ≡ record { command = command; params = read_params (p ∷ ps); rest = body p ps }
unfolding parse build_frame add_params
parse-build_frame command p ps h k l =
    rw
      (
        index_of-append b'|' command (body p ps) h,
        parse,
        take-append command (b'|' ∷ body p ps),
        drop_sep b'|' command (body p ps),
        parse_params-body ps (length (body p ps)) p (omega arith) k l,
      )
      refl
