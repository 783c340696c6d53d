-- ===== src/Base/Lists.antt =====
-- Lists measured and indexed by native numbers, under the library's names.
use Prim.Native.Nat.{ℕ, zero, suc, ◌+◌, ◌-◌, ◌<◌, min}
use mathlib.Core.Path.{◌≡◌, refl, sym, ap, ◌∙◌}
use mathlib.Core.List.{List, [], ◌∷◌, ◌++◌}
use mathlib.Core.Bool.{Bool}
use mathlib.Core.Option.{Option, none, some}
use native.Mathlib.Omega.{arith}
use chat_serve.Base.Tests.{if◌then◌else◌}

module _ {ℓ} {A : Type ℓ} where
  abbrev pub length : List A → ℕ
  length [] = 0
  length (x ∷ xs) = suc (length xs)

  abbrev pub get_or : List A → ℕ → A → A
  get_or [] i d = d
  get_or (x ∷ xs) zero d = x
  get_or (x ∷ xs) (suc i) d = get_or xs i d

  abbrev pub take : ℕ → List A → List A
  take zero xs = []
  take (suc n) [] = []
  take (suc n) (x ∷ xs) = x ∷ take n xs

  abbrev pub drop : ℕ → List A → List A
  drop zero xs = xs
  drop (suc n) [] = []
  drop (suc n) (x ∷ xs) = drop n xs

  -- `Array.prototype.filter` and `find`.
  abbrev pub filter : (A → Bool) → List A → List A
  filter p [] = []
  filter p (x ∷ xs) = if p x then x ∷ filter p xs else filter p xs

  abbrev pub find : (A → Bool) → List A → Option A
  find p [] = none
  find p (x ∷ xs) = if p x then some x else find p xs

  abbrev pub concat : List (List A) → List A
  concat [] = []
  concat (xs ∷ xss) = xs ++ concat xss

  abbrev pub All {κ} : (A → Type κ) → List A → Type κ
  All P [] = Unit
  All P (x ∷ xs) = P x × All P xs

  pub length-append : (xs ys : List A) → length (xs ++ ys) ≡ length xs + length ys
  length-append [] ys = omega arith
  length-append (x ∷ xs) ys = omega (arith, length-append xs ys)

  pub drop-append : (xs ys : List A) → drop (length xs) (xs ++ ys) ≡ ys
  drop-append [] ys = refl
  drop-append (x ∷ xs) ys = drop-append xs ys

  pub take-append : (xs ys : List A) → take (length xs) (xs ++ ys) ≡ xs
  take-append [] ys = refl
  take-append (x ∷ xs) ys = ap (x ∷◌) (take-append xs ys)

  pub take-nil : (n : ℕ) → ◌≡◌ {A = List A} (take n []) []
  take-nil zero = refl
  take-nil (suc n) = refl

  pub drop-nil : (n : ℕ) → ◌≡◌ {A = List A} (drop n []) []
  drop-nil zero = refl
  drop-nil (suc n) = refl

  take_clip : (xs : List A) (n b : ℕ) → b ≡ min n (length xs) → take b xs ≡ take n xs
  take_clip [] n b e = take-nil b ∙ sym (take-nil n)
  take_clip (x ∷ xs) zero zero e = refl
  take_clip (x ∷ xs) zero (suc b) e = absurd (omega arith)
  take_clip (x ∷ xs) (suc n) zero e = absurd (omega arith)
  take_clip (x ∷ xs) (suc n) (suc b) e = ap (x ∷◌) (take_clip xs n b (omega arith))

  -- A slice whose two ends are clipped to the list is the same slice.
  pub take_clipped :
      (xs : List A) (o n a b : ℕ)
      → a ≡ min o (length xs)
      → b ≡ min (o + n) (length xs) - a
      → take b (drop a xs) ≡ take n (drop o xs)
  take_clipped [] o n a b e f = rw (drop-nil a, drop-nil o) (take-nil b ∙ sym (take-nil n))
  take_clipped (x ∷ xs) zero n zero b e f = take_clip (x ∷ xs) n b (omega arith)
  take_clipped (x ∷ xs) zero n (suc a) b e f = absurd (omega arith)
  take_clipped (x ∷ xs) (suc o) n zero b e f = absurd (omega arith)
  take_clipped (x ∷ xs) (suc o) n (suc a) b e f =
      take_clipped xs o n a b (omega arith) (omega arith)

  pub take-drop-cons :
      (xs : List A) (o n : ℕ)
      → o < length xs
      → 0 < n
      → (x : A) × (rest : List A) × (take n (drop o xs) ≡ x ∷ rest)
  take-drop-cons [] o n h k = absurd (omega arith)
  take-drop-cons (x ∷ xs) o zero h k = absurd (omega arith)
  take-drop-cons (x ∷ xs) zero (suc n) h k = (x, take n xs, refl)
  take-drop-cons (x ∷ xs) (suc o) (suc n) h k = take-drop-cons xs o (suc n) (omega arith) k
