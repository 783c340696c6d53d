-- ===== src/Text/Laws.antt =====
-- Laws of splitting, joining and searching, and of texts built around a separator.
use chat_serve.Base.{
  ℕ, ◌≡◌, refl, ap, ◌≢◌, inl, inr, Bool-cases, true, List, [], ◌∷◌, ◌++◌, none, some, nat_beq, All,
  arith, length,
}
use chat_serve.Text.{Text, starts_with, split_step, split, join, index_of, Lacks}

pub starts_with-append : (p s : Text) → starts_with (p ++ s) p ≡ true
unfolding starts_with
starts_with-append [] [] = refl
starts_with-append [] (c ∷ s) = refl
starts_with-append (c ∷ p) s = ground (arith, starts_with-append p s)

module _ (sep : ℕ) where
  split-cons : (s : Text) → (part : Text) × (parts : List Text) × (split sep s ≡ part ∷ parts)
  unfolding split
  split-cons [] = ([], [], refl)
  split-cons (c ∷ s) =
      let (part, parts, e) = split-cons s in
      elim (Bool-cases (nat_beq c sep)) [
        | inl hit ↦ ([], part ∷ parts, rw (e, split_step, hit))
        | inr miss ↦ (c ∷ part, parts, rw (e, split_step, miss))
      ]

  split_step_sep : (parts : List Text) → parts ≢ [] → split_step sep sep parts ≡ [] ∷ parts
  unfolding split_step
  split_step_sep [] h = absurd (h refl)
  split_step_sep (part ∷ parts) h = ground arith

  split-append :
      (s : Text) (rest : Text) → Lacks sep s → split sep (s ++ sep ∷ rest) ≡ s ∷ split sep rest
  unfolding split
  split-append [] rest h =
      let (part, parts, e) = split-cons rest in split_step_sep (split sep rest) (λ n. cc)
  split-append (c ∷ s) rest h = rw (split-append s rest h.1, split_step, h.0)

  split-Lacks : (s : Text) → Lacks sep s → split sep s ≡ s ∷ []
  unfolding split
  split-Lacks [] h = refl
  split-Lacks (c ∷ s) h = rw (split-Lacks s h.1, split_step, h.0)

  -- Splitting takes apart what was joined.
  pub split-join :
      (part : Text) (parts : List Text)
      → Lacks sep part
      → All (Lacks sep) parts
      → split sep (join (sep ∷ []) (part ∷ parts)) ≡ part ∷ parts
  unfolding join
  split-join part [] h k = split-Lacks part h
  split-join part (next ∷ parts) h k =
      rw (split-append part (join (sep ∷ []) (next ∷ parts)) h)
        (ap (part ∷◌) (split-join next parts k.0 k.1))

  pub index_of-append :
      (s rest : Text) → Lacks sep s → index_of sep (s ++ sep ∷ rest) ≡ some (length s)
  unfolding index_of
  index_of-append [] rest h = ground arith
  index_of-append (c ∷ s) rest h = rw (h.0, index_of-append s rest h.1)

  pub index_of-Lacks : (s : Text) → Lacks sep s → index_of sep s ≡ none
  unfolding index_of
  index_of-Lacks [] h = refl
  index_of-Lacks (c ∷ s) h = rw (h.0, index_of-Lacks s h.1)
