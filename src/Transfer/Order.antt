-- ===== src/Transfer/Order.antt =====
-- The sort of `finishDownload`.
use mathlib.Core.List.{Permᴰ}
use chat_serve.Base.{ℕ, suc, ◌≤◌, ◌≡◌, refl, ◌∙◌, List, [], ◌∷◌, ◌++◌, arith}
use chat_serve.Transfer.Download.{insert_sorted, sort}

insert_sorted_comm :
    (a b : ℕ) (xs : List ℕ)
    → insert_sorted a (insert_sorted b xs) ≡ insert_sorted b (insert_sorted a xs)
unfolding insert_sorted
insert_sorted_comm a b [] = ground arith
insert_sorted_comm a b (x ∷ xs) = ground (arith, insert_sorted_comm a b xs)

-- Two lists of the same offsets are sorted into the same list.
pub sort-perm : {xs ys : List ℕ} → Permᴰ xs ys → sort xs ≡ sort ys
unfolding sort
sort-perm Permᴰ.nil = refl
sort-perm (Permᴰ.cons e p) = cc (sort-perm p)
sort-perm (Permᴰ.swap {a} {b} {l} e f) = rw (← e, ← f) (insert_sorted_comm a b (sort l))
sort-perm (Permᴰ.trans p q) = sort-perm p ∙ sort-perm q

pub sort-snoc : (xs : List ℕ) (a : ℕ) → sort (xs ++ a ∷ []) ≡ insert_sorted a (sort xs)
unfolding sort
sort-snoc [] a = refl
sort-snoc (x ∷ xs) a = rw (sort-snoc xs a) (insert_sorted_comm x a (sort xs))

-- A list that rises from `a` on.
abbrev pub Rises : ℕ → List ℕ → Type 0
Rises a [] = Unit
Rises a (x ∷ xs) = (a ≤ x) × Rises (suc x) xs

pub sort_rising : (a : ℕ) (xs : List ℕ) → Rises a xs → sort xs ≡ xs
unfolding sort insert_sorted
sort_rising a [] h = refl
sort_rising a (x ∷ []) h = refl
sort_rising a (x ∷ y ∷ xs) h = rw (sort_rising (suc x) (y ∷ xs) h.1) (ground arith)
