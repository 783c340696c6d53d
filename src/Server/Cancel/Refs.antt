-- ===== src/Server/Cancel/Refs.antt =====
-- The tables of `TransferManager` that list the ids of a session's transfers: what adding and removing
-- an id does to them (src/chatroom/TransferManager.cpp).
use chat_serve.Base.{
  ℕ, ◌≡◌, ap, not, ◌&&◌, ◌||◌, List, [], ◌∷◌, ◌++◌, if◌then◌else◌, ◌===◌, nat_eq, nat_beq_iff, Dict,
  lookup, lookup-insert, lookup-erase, arith, Bool-cases, Option-cases, inl, inr,
}
use chat_serve.Server.Files.{push_ref}
use chat_serve.Server.Transfers.{has_offset}
use chat_serve.Server.Cancel.{remove_all, put_refs, remove_session_ref, refs_of}

has-remove_all :
    (j sid : ℕ) (ids : List ℕ)
    → has_offset j (remove_all (λ i. i === sid) ids) ≡ (not (j === sid) && has_offset j ids)
has-remove_all j sid [] = ground arith
has-remove_all j sid (i ∷ ids) = let ih = has-remove_all j sid ids in ground arith

refs-put_refs {ℓ} :
    {V : Type ℓ}
    → (a b : ℕ) (vs : List V) (refs : Dict ℕ (List V))
    → refs_of b (put_refs a vs refs) ≡ (if a === b then vs else refs_of b refs)
unfolding put_refs
refs-put_refs a b [] refs = let e = lookup-erase a b refs in ground arith
refs-put_refs a b (v ∷ vs) refs = let e = lookup-insert a b (v ∷ vs) refs in ground arith

pub has-remove_session_ref :
    (j a b sid : ℕ) (refs : Dict ℕ (List ℕ))
    → has_offset j (refs_of b (remove_session_ref a sid refs))
      ≡ (not ((a === b) && (j === sid)) && has_offset j (refs_of b refs))
unfolding remove_session_ref
has-remove_session_ref j a b sid refs = elim (Bool-cases (a === b)) [
  | inl same ↦
      let q = ap (λ x. lookup x refs) ((nat_beq_iff a b).0 same) in
      elim (Option-cases (lookup a refs)) [
        | inl e ↦ ground (arith, e, q, same)
        | inr (ids, e) ↦ ground (
          arith,
          e,
          q,
          same,
          refs-put_refs a b (remove_all (λ i. i === sid) ids) refs,
          has-remove_all j sid ids,
        )
      ]
  | inr other ↦ elim (Option-cases (lookup a refs)) [
    | inl e ↦ ground (arith, e, other)
    | inr (ids, e) ↦
        ground (arith, e, other, refs-put_refs a b (remove_all (λ i. i === sid) ids) refs)
  ]
]

has-snoc :
    (j sid : ℕ) (ids : List ℕ) → has_offset j (ids ++ sid ∷ []) ≡ (has_offset j ids || (j === sid))
has-snoc j sid [] = ground arith
has-snoc j sid (i ∷ ids) = let ih = has-snoc j sid ids in ground arith

pub has-push_ref :
    (j a b sid : ℕ) (refs : Dict ℕ (List ℕ))
    → has_offset j (refs_of b (push_ref a sid refs))
      ≡ (has_offset j (refs_of b refs) || ((a === b) && (j === sid)))
unfolding push_ref
has-push_ref j a b sid refs = elim (Bool-cases (a === b)) [
  | inl same ↦
      let q = ap (λ x. lookup x refs) ((nat_beq_iff a b).0 same) in
      elim (Option-cases (lookup a refs)) [
        | inl e ↦ ground (arith, e, q, same, lookup-insert a b (sid ∷ []) refs)
        | inr (ids, e) ↦
            ground (arith, e, q, same, lookup-insert a b (ids ++ sid ∷ []) refs, has-snoc j sid ids)
      ]
  | inr other ↦ elim (Option-cases (lookup a refs)) [
    | inl e ↦ ground (arith, e, other, lookup-insert a b (sid ∷ []) refs)
    | inr (ids, e) ↦ ground (arith, e, other, lookup-insert a b (ids ++ sid ∷ []) refs)
  ]
]
