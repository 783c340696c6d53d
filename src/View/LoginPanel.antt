-- ===== src/View/LoginPanel.antt =====
-- web/src/components/LoginPanel.vue: the room and the nickname that the user joins with.
use chat_serve.Base.{ℕ, ◌≢◌, [], ◌∷◌, ◌++◌, arith}
use chat_serve.Text.{Text, lit}
use chat_serve.Text.Number.{show}
use chat_serve.View.ChatView.{trim}

-- `s.trim() || t`
abbrev pub trimmed_or : Text → Text → Text
trimmed_or s t = elim (trim s) [ [] ↦ t | c ∷ r ↦ c ∷ r ]

-- `join`, with the random number below 1000 that it draws
unfoldable pub join_as : (room nick : Text) (random : ℕ) → Text × Text
join_as room nick random =
    (trimmed_or room (lit "lobby"), trimmed_or nick (lit "用户" ++ show random))

nonempty_or : (s : Text) (c : ℕ) (t : Text) → trimmed_or s (c ∷ t) ≢ []
nonempty_or s c t = kept (trim s)
  where
    kept : (r : Text) → (elim r as (λ _. Text) [ [] ↦ c ∷ t | d ∷ r' ↦ d ∷ r' ]) ≢ []
    kept [] e = ground (arith, e)
    kept (d ∷ r) e = ground (arith, e)

-- Neither the room nor the nickname is ever empty, whatever the user writes.
pub join_as_lem :
    (room nick : Text) (random : ℕ)
    → ((join_as room nick random).0 ≢ []) × ((join_as room nick random).1 ≢ [])
unfolding join_as
join_as_lem room nick random = (nonempty_or room _ _, nonempty_or nick _ _)
