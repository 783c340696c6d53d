-- ===== src/Transfer/Keys.antt =====
-- The keys of `pendingChunks`: `sessionId + ':' + offset`.
use chat_serve.Base.{
  ℕ, ◌≡◌, refl, sym, ap, ◌∙◌, ◌≢◌, false, [], ◌∷◌, ◌++◌, append-nil, nat_beq, arith, drop,
  drop-append, length,
}
use chat_serve.Text.{Text}
use chat_serve.Text.Number.{show, show-injective}
use chat_serve.Transfer.Receive.{chunk_key}

abbrev pub key_of : ℕ → ℕ → Text
key_of s o = chunk_key (show s) (show o)

append_cancel : (xs : Text) {ys zs : Text} → xs ++ ys ≡ xs ++ zs → ys ≡ zs
append_cancel xs {ys} {zs} e = sym (drop-append xs ys) ∙ ap (drop (length xs)) e ∙ drop-append xs zs

key_of-session : (s s' o o' : ℕ) → key_of s o ≡ key_of s' o' → s ≡ s'
key_of-session s s' o o' e = show-injective s s' (b':' ∷ show o) (b':' ∷ show o') refl refl e

show_eq : (o o' : ℕ) → show o ≡ show o' → o ≡ o'
show_eq o o' e = show-injective o o' [] [] tt tt (rw (append-nil (show o), append-nil (show o')) e)

key_of-offset : (s o o' : ℕ) → key_of s o ≡ key_of s o' → o ≡ o'
key_of-offset s o o' e =
    show_eq o o' (ap (drop 1) (append_cancel (show s) {ys = b':' ∷ show o} {zs = b':' ∷ show o'} e))

-- Two chunks have one key only if session and offset are the same.
key_of-injective : (s s' o o' : ℕ) → key_of s o ≡ key_of s' o' → (s ≡ s') × (o ≡ o')
key_of-injective s s' o o' e =
    let same = key_of-session s s' o o' e in
    (same, key_of-offset s o o' (e ∙ ap (λ n. key_of n o') (sym same)))

pub key_of-ne : (s o p : ℕ) → nat_beq p o ≡ false → key_of s o ≢ key_of s p
key_of-ne s o p h e = absurd (ne (key_of-offset s o p e))
  where
    ne : ¬ (o ≡ p)
    ne same = ground arith
