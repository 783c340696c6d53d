-- ===== src/Client.antt =====
-- client/main.js: the desktop shell's choice of its server, and the certificates that it accepts.
use chat_serve.Base.{
  ℕ, suc, zero, ◌≡◌, refl, ap, ◌∙◌, ◌↔◌, Bool, true, false, ◌&&◌, List, [], ◌∷◌, ◌++◌, Option, none,
  some, if◌then◌else◌, nat_beq, nat_beq_iff, All, arith, find, drop, list_eq, nat_eq, list_beq_iff,
  ◌===◌, Bool-cases, inl, inr,
}
use chat_serve.Text.{Text, lit, starts_with}
use chat_serve.Text.Laws.{starts_with-append}

is_empty : Text → Bool
is_empty [] = true
is_empty (_ ∷ _) = false

-- A unit in front of a text that is stripped already
strip_step : ℕ → Text → Text
unfolding is_empty
strip_step c rest = if nat_beq c b'/' && is_empty rest then [] else c ∷ rest

-- `raw.replace(/\/+$/, '')`: without the slashes at the end
unfoldable pub strip_slashes : Text → Text
unfolding strip_step
strip_slashes [] = []
strip_slashes (c ∷ s) = strip_step c (strip_slashes s)

-- `flag && flag.slice('--server='.length)`; no flag counts as an empty one
unfoldable pub flag_value : List Text → Text
flag_value argv = elim (find (λ a. starts_with a (lit "--server=")) argv) [
  | none ↦ []
  | some flag ↦ drop 9 flag
]

-- `a || b` on texts
or_else : Text → Text → Text
or_else [] b = b
or_else (c ∷ a) b = c ∷ a

abbrev pub default_server : Text
default_server = lit "https://192.168.1.24:8443"

-- The address before its slashes are stripped; an environment variable that is not set is empty.
unfoldable pub raw_server : List Text → Text → Text
unfolding or_else
raw_server argv env = or_else (or_else (flag_value argv) env) default_server

unfoldable pub resolve_server : List Text → Text → Text
unfolding strip_slashes
resolve_server argv env = strip_slashes (raw_server argv env)

-- What the window loads.
unfoldable pub chat_url : List Text → Text → Text
chat_url argv env = resolve_server argv env ++ lit "/chat"

-- `new URL(url).host === new URL(SERVER).host`, false where one of them throws
one_host : Option Text → Option Text → Bool
one_host none _ = false
one_host (some h) none = false
one_host (some h) (some k) = h === k

-- `host url` is `new URL(url).host`, and none where the constructor throws.
module _ (host : Text → Option Text) where
  unfoldable pub same_host : (server url : Text) → Bool
  unfolding one_host
  same_host server url = one_host (host url) (host server)

  -- The handler of `certificate-error`: whether it prevents the default, and what it answers.
  unfoldable pub on_certificate_error : (server url : Text) → Bool × Bool
  on_certificate_error server url = if same_host server url then (true, true) else (false, false)

abbrev pub ends_with_slash : Text → Bool
ends_with_slash [] = false
ends_with_slash (c ∷ []) = nat_beq c b'/'
ends_with_slash (_ ∷ d ∷ s) = ends_with_slash (d ∷ s)

abbrev pub slashes : ℕ → Text
slashes zero = []
slashes (suc k) = b'/' ∷ slashes k

strip_step-ends :
    (c : ℕ) (t : Text) → ends_with_slash t ≡ false → ends_with_slash (strip_step c t) ≡ false
unfolding strip_step
strip_step-ends c [] h = ground arith
strip_step-ends c (d ∷ t) h = ground arith

strip_step-append :
    (c k : ℕ) (t : Text) → (j : ℕ) × (c ∷ (t ++ slashes k) ≡ strip_step c t ++ slashes j)
unfolding strip_step
strip_step-append c k [] = elim (Bool-cases (nat_beq c b'/')) [
  | inl slash ↦ (suc k, rw slash (ap (λ d. d ∷ slashes k) ((nat_beq_iff c b'/').0 slash)))
  | inr other ↦ (k, rw other refl)
]
strip_step-append c k (d ∷ t) = (k, ground arith)

strip_slashes-ends : (s : Text) → ends_with_slash (strip_slashes s) ≡ false
unfolding strip_slashes
strip_slashes-ends [] = refl
strip_slashes-ends (c ∷ s) = strip_step-ends c (strip_slashes s) (strip_slashes-ends s)

strip_slashes-append : (s : Text) → (k : ℕ) × (s ≡ strip_slashes s ++ slashes k)
unfolding strip_slashes
strip_slashes-append [] = (zero, refl)
strip_slashes-append (c ∷ s) =
    let (k, e) = strip_slashes-append s in
    let (j, f) = strip_step-append c k (strip_slashes s) in (j, ap (c ∷◌) e ∙ f)

-- The address that is chosen has no slash at its end, and is the raw one but for slashes there.
resolve_server_lem :
    (argv : List Text) (env : Text)
    → (ends_with_slash (resolve_server argv env) ≡ false)
      × ((k : ℕ) × (raw_server argv env ≡ resolve_server argv env ++ slashes k))
unfolding resolve_server
resolve_server_lem argv env =
    (strip_slashes-ends (raw_server argv env), strip_slashes-append (raw_server argv env))

-- Both addresses are well-formed, and have one host.
abbrev pub IsOneHost : Option Text → Option Text → Type 0
IsOneHost none k = ⊥
IsOneHost (some h) none = ⊥
IsOneHost (some h) (some k) = h ≡ k

one_host-IsOneHost : (o p : Option Text) → (one_host o p ≡ true) ↔ IsOneHost o p
unfolding one_host
one_host-IsOneHost none p = ground arith
one_host-IsOneHost (some h) none = ground arith
one_host-IsOneHost (some h) (some k) = list_beq_iff h k

module _ (host : Text → Option Text) (server url : Text) where
  -- A certificate that Chromium refuses is accepted, and the default prevented, just where the
  -- address that it is for and the server's are both well-formed and have one host; else it is
  -- refused, and the default is left.
  pub on_certificate_error_lem :
      ((on_certificate_error host server url ≡ (true, true)) ↔ IsOneHost (host url) (host server))
      × ((on_certificate_error host server url ≡ (false, false))
          ↔ ¬ IsOneHost (host url) (host server))
  unfolding on_certificate_error same_host
  on_certificate_error_lem = ground (arith, one_host-IsOneHost (host url) (host server))

find_first {ℓ} :
    {A : Type ℓ} (p : A → Bool) (before : List A) (a : A) (after : List A)
    → All (λ x. p x ≡ false) before
    → p a ≡ true
    → find p (before ++ a ∷ after) ≡ some a
find_first p [] a after h k = rw k refl
find_first p (x ∷ before) a after h k = rw h.0 (find_first p before a after h.1 k)

-- The first argument that begins with `--server=` decides, whatever stands behind it and whatever
-- the environment says, where its value is not empty.
resolve_server-flag :
    (before after : List Text) (c : ℕ) (value env : Text)
    → All (λ a. starts_with a (lit "--server=") ≡ false) before
    → resolve_server (before ++ (lit "--server=" ++ c ∷ value) ∷ after) env
      ≡ strip_slashes (c ∷ value)
unfolding resolve_server raw_server flag_value
resolve_server-flag before after c value env h =
    rw
      (
        flag_value,
        find_first (λ a. starts_with a (lit "--server=")) before _ after h
            (starts_with-append (lit "--server=") (c ∷ value)),
      )
      refl
