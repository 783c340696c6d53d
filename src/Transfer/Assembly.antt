-- ===== src/Transfer/Assembly.antt =====
-- `finishDownload`: chunks put together as a file.
use mathlib.Core.List.{Perm, Permᴰ}
use mathlib.Core.List.Permᴰ as PermD
use mathlib.Core.Logic.{∥∥₁_elim}
use chat_serve.Base.{
  ℕ, suc, ◌+◌, ◌≤◌, ◌<◌, ◌≡◌, refl, sym, ap, subst, false, List, [], ◌∷◌, ◌++◌, map, append-nil,
  append_assoc, some, nat_beq, nat_eq, arith, All, Dict, lookup, insert, keys, concat, length,
}
use chat_serve.Transfer.Frame.{Bytes}
use chat_serve.Transfer.Order.{sort-perm, Rises, sort_rising}
use chat_serve.Transfer.Download.{chunk_at, assemble}

-- The chunks after a run of arrivals.
unfoldable pub collect : Dict ℕ Bytes → Dict ℕ Bytes → Dict ℕ Bytes
collect chunks [] = chunks
collect chunks ((o, chunk) ∷ arrivals) = collect (insert o chunk chunks) arrivals

-- A file cut into consecutive chunks, each with its offset.
abbrev pub pieces : ℕ → List Bytes → Dict ℕ Bytes
pieces o [] = []
pieces o (d ∷ ds) = (o, d) ∷ pieces (o + length d) ds

abbrev pub IsFull : Bytes → Type 0
IsFull d = 0 < length d

abbrev Avoids : ℕ → Dict ℕ Bytes → Type 0
Avoids o = All λ c. nat_beq c.0 o ≡ false

abbrev Distinct : Dict ℕ Bytes → Type 0
Distinct [] = Unit
Distinct (c ∷ m) = Avoids c.0 m × Distinct m

module _ {ℓ κ} {A : Type ℓ} (P : A → Type κ) where
  All-perm : {xs ys : List A} → Permᴰ xs ys → All P xs → All P ys
  All-perm Permᴰ.nil h = tt
  All-perm (Permᴰ.cons e p) h = (subst P e h.0, All-perm p h.1)
  All-perm (Permᴰ.swap e f) h = (subst P f h.1.0, (subst P e h.0, h.1.1))
  All-perm (Permᴰ.trans p q) h = All-perm q (All-perm p h)

insert_fresh : (o : ℕ) (d : Bytes) (m : Dict ℕ Bytes) → Avoids o m → insert o d m ≡ m ++ (o, d) ∷ []
unfolding insert
insert_fresh o d [] h = refl
insert_fresh o d ((j, e) ∷ m) h = rw (h.0, insert_fresh o d m h.1)

Avoids-snoc :
    (o p : ℕ) (d : Bytes) (m : Dict ℕ Bytes)
    → Avoids p m
    → nat_beq o p ≡ false
    → Avoids p (m ++ (o, d) ∷ [])
Avoids-snoc o p d [] h e = (e, tt)
Avoids-snoc o p d (c ∷ m) h e = (h.0, Avoids-snoc o p d m h.1 e)

nat_beq_symm : (a b : ℕ) → nat_beq a b ≡ false → nat_beq b a ≡ false
nat_beq_symm a b h = ground arith

Distinct-perm : {xs ys : Dict ℕ Bytes} → Permᴰ xs ys → Distinct xs → Distinct ys
Distinct-perm Permᴰ.nil h = tt
Distinct-perm (Permᴰ.cons {l₂} e p) h =
    (subst (λ c. Avoids c.0 l₂) e (All-perm _ p h.0), Distinct-perm p h.1)
Distinct-perm (Permᴰ.swap {a} {b} {b'} {l} e f) h =
    subst (λ c. Distinct (c ∷ b' ∷ l)) f
      (subst (λ c. Distinct (b ∷ c ∷ l)) e ((nat_beq_symm b.0 a.0 h.0.0, h.1.0), (h.0.1, h.1.1)))
Distinct-perm (Permᴰ.trans p q) h = Distinct-perm q (Distinct-perm p h)

Avoids-All :
    (o : ℕ) (d : Bytes) (m arrivals : Dict ℕ Bytes)
    → Avoids o arrivals
    → All (λ c. Avoids c.0 m) arrivals
    → All (λ c. Avoids c.0 (m ++ (o, d) ∷ [])) arrivals
Avoids-All o d m [] h k = tt
Avoids-All o d m (c ∷ arrivals) h k =
    (Avoids-snoc o c.0 d m k.0 (nat_beq_symm c.0 o h.0), Avoids-All o d m arrivals h.1 k.1)

-- Chunks at distinct offsets pile up in the order of their arrival.
collect-Distinct :
    (m arrivals : Dict ℕ Bytes)
    → Distinct arrivals
    → All (λ c. Avoids c.0 m) arrivals
    → collect m arrivals ≡ m ++ arrivals
unfolding collect
collect-Distinct m [] h k = sym (append-nil m)
collect-Distinct m ((o, d) ∷ arrivals) h k =
    rw
      (
        insert_fresh o d m k.0,
        collect-Distinct (m ++ (o, d) ∷ []) arrivals h.1 (Avoids-All o d m arrivals h.0 k.1),
      )
      (append_assoc m ((o, d) ∷ []) arrivals)

Avoids-nil : (arrivals : Dict ℕ Bytes) → All (λ c. Avoids c.0 []) arrivals
Avoids-nil [] = tt
Avoids-nil (c ∷ arrivals) = (tt, Avoids-nil arrivals)

abbrev Finds : Dict ℕ Bytes → ℕ × Bytes → Type 0
Finds m c = lookup c.0 m ≡ some c.1

Finds-cons :
    (o : ℕ) (d : Bytes) (m cs : Dict ℕ Bytes)
    → Avoids o cs
    → All (Finds m) cs
    → All (Finds ((o, d) ∷ m)) cs
unfolding lookup
Finds-cons o d m [] h k = tt
Finds-cons o d m (c ∷ cs) h k = (rw (nat_beq_symm c.0 o h.0) k.0, Finds-cons o d m cs h.1 k.1)

Finds-All : (m : Dict ℕ Bytes) → Distinct m → All (Finds m) m
unfolding lookup
Finds-All [] h = tt
Finds-All ((o, d) ∷ m) h = (ground arith, Finds-cons o d m m h.0 (Finds-All m h.1))

chunks_at :
    (m : Dict ℕ Bytes) (o : ℕ) (ds : List Bytes)
    → All (Finds m) (pieces o ds)
    → map (chunk_at m) (keys (pieces o ds)) ≡ ds
unfolding chunk_at
chunks_at m o [] h = refl
chunks_at m o (d ∷ ds) h = rw (h.0, chunk_at, chunks_at m (o + length d) ds h.1)

Rises-weaken : (a b : ℕ) (xs : List ℕ) → a ≤ b → Rises b xs → Rises a xs
Rises-weaken a b [] h r = tt
Rises-weaken a b (x ∷ xs) h r = (omega arith, r.1)

pieces-Rises : (o : ℕ) (ds : List Bytes) → All IsFull ds → Rises o (keys (pieces o ds))
pieces-Rises o [] h = tt
pieces-Rises o (d ∷ ds) h = (
  omega arith,
  Rises-weaken (suc o) (o + length d) _ (omega arith) (pieces-Rises (o + length d) ds h.1),
)

Avoids-rising : (o a : ℕ) (m : Dict ℕ Bytes) → o < a → Rises a (keys m) → Avoids o m
Avoids-rising o a [] h r = tt
Avoids-rising o a (c ∷ m) h r = (ground arith, Avoids-rising o (suc c.0) m (omega arith) r.1)

Distinct-rising : (a : ℕ) (m : Dict ℕ Bytes) → Rises a (keys m) → Distinct m
Distinct-rising a [] r = tt
Distinct-rising a (c ∷ m) r =
    (Avoids-rising c.0 (suc c.0) m (omega arith) r.1, Distinct-rising (suc c.0) m r.1)

keys-perm : {xs ys : Dict ℕ Bytes} → Permᴰ xs ys → Permᴰ (keys xs) (keys ys)
keys-perm Permᴰ.nil = Permᴰ.nil
keys-perm (Permᴰ.cons e p) = Permᴰ.cons (ap (λ (c : ℕ × Bytes). c.0) e) (keys-perm p)
keys-perm (Permᴰ.swap e f) =
    Permᴰ.swap (ap (λ (c : ℕ × Bytes). c.0) e) (ap (λ (c : ℕ × Bytes). c.0) f)
keys-perm (Permᴰ.trans p q) = Permᴰ.trans (keys-perm p) (keys-perm q)

assemble_permuted :
    (ds : List Bytes) (arrivals : Dict ℕ Bytes)
    → All IsFull ds
    → Permᴰ (pieces 0 ds) arrivals
    → assemble (collect [] arrivals) ≡ concat ds
unfolding assemble
assemble_permuted ds arrivals h p =
    let rises = pieces-Rises 0 ds h in
    let distinct = Distinct-perm p (Distinct-rising 0 (pieces 0 ds) rises) in
    rw (
      collect-Distinct [] arrivals distinct (Avoids-nil arrivals),
      ← sort-perm (keys-perm p),
      sort_rising 0 (keys (pieces 0 ds)) rises,
      chunks_at arrivals 0 ds
          (All-perm (Finds arrivals) (PermD.symm p) (Finds-All arrivals distinct)),
    )

bytes_set : IsSet Bytes
bytes_set = hlevel

-- Chunks, none of them empty, that a file is cut into and that arrive in any order, each once, are
-- put together as that file.
pub assemble-collect :
    (ds : List Bytes) (arrivals : Dict ℕ Bytes)
    → All IsFull ds
    → Perm arrivals (pieces 0 ds)
    → assemble (collect [] arrivals) ≡ concat ds
assemble-collect ds arrivals h p =
    ∥∥₁_elim p (bytes_set _ _) λ q. assemble_permuted ds arrivals h (PermD.symm q)
