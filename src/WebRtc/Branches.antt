-- ===== src/WebRtc/Branches.antt =====
-- What holds after each branch of a step of `useWebRTC` holds after the step.
use chat_serve.Base.{Bool, true, false, Option, none, some, if◌then◌else◌}
use chat_serve.WebRtc.State.{Calls, CallStep}

module _ (P : Calls → Type 0) where
  pub in_if : (b : Bool) (x y : CallStep) → P x.0 → P y.0 → P (if b then x else y).0
  in_if true x y h k = h
  in_if false x y h k = k

  pub in_option :
      {A : Type 0} (o : Option A) (x : CallStep) (y : A → CallStep)
      → P x.0
      → ((a : A) → P (y a).0)
      → P (elim o as (λ _. CallStep) [ none ↦ x | some a ↦ y a ]).0
  in_option none x y h k = h
  in_option (some a) x y h k = k a

  -- A call that may throw, and what follows if it does not
  pub in_thrown :
      (threw : Bool) (x y : Calls × Bool)
      → P x.0
      → P y.0
      → P (elim threw as (λ _. Calls × Bool) [ true ↦ x | false ↦ y ]).0
  in_thrown true x y h k = h
  in_thrown false x y h k = k
