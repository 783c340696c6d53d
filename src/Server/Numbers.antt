-- ===== src/Server/Numbers.antt =====
-- `std::stoi`, `std::stoul` and `std::stoull` as the commands call them on parameters; an
-- exception is `none`. A `long` and a `size_t` have 64 bits, an `int` 32.
use chat_serve.Base.{
  ℕ, zero, suc, lt→ltb, ◌-◌, ◌%◌, ◌≤◌, ◌<◌, ◌≡◌, refl, Bool, true, false, ◌&&◌, ◌||◌, [], ◌∷◌,
  Option, none, some, if◌then◌else◌, ltb, leb, nat_beq, arith, ℤ, pos, negsuc,
}
use chat_serve.Text.{Text}
use chat_serve.Text.Number.{show, show-head, parse_digits, parse_digits-show_nil}

abbrev pub word_limit : ℕ
word_limit = 18446744073709551616

abbrev pub int_limit : ℕ
int_limit = 2147483648

-- White space in the C locale
abbrev is_c_space : ℕ → Bool
is_c_space c = (leb 9 c && leb c 13) || nat_beq c b' '

unfoldable pub skip_spaces : Text → Text
skip_spaces [] = []
skip_spaces (c ∷ s) = if is_c_space c then skip_spaces s else c ∷ s

-- The sign and the magnitude of the number at the head of a text; `none` where there is no digit.
unfoldable pub read_signed : Text → Option (Bool × ℕ)
read_signed [] = none
read_signed (c ∷ s) =
    if nat_beq c b'-'
    then elim (parse_digits none s) [ none ↦ none | some n ↦ some (true, n) ]
    else elim (parse_digits none (if nat_beq c b'+' then s else c ∷ s)) [
      | none ↦ none
      | some n ↦ some (false, n)
    ]

-- A negative number wraps around.
abbrev to_word : Option (Bool × ℕ) → Option ℕ
to_word none = none
to_word (some (minus, n)) =
    if ltb n word_limit then some (if minus then (word_limit - n) % word_limit else n) else none

unfoldable pub stoull : Text → Option ℕ
unfolding skip_spaces read_signed
stoull s = to_word (read_signed (skip_spaces s))

-- `std::stoul`, on a platform where both types have 64 bits
abbrev pub stoul : Text → Option ℕ
stoul = stoull

abbrev negate : ℕ → ℤ
negate zero = pos 0
negate (suc n) = negsuc n

abbrev to_int : Option (Bool × ℕ) → Option ℤ
to_int none = none
to_int (some (minus, n)) =
    if minus
    then if leb n int_limit then some (negate n) else none
    else if ltb n int_limit
    then some (pos n)
    else none

unfoldable pub stoi : Text → Option ℤ
unfolding skip_spaces read_signed
stoi s = to_int (read_signed (skip_spaces s))

-- A decimal form has neither a space nor a sign.
read_digit :
    (c : ℕ) (s : Text)
    → b'0' ≤ c
    → c ≤ b'9'
    → read_signed (skip_spaces (c ∷ s))
      ≡ elim (parse_digits none (c ∷ s)) as (λ _. Option (Bool × ℕ)) [
        | none ↦ none
        | some n ↦ some (false, n)
      ]
unfolding read_signed skip_spaces
read_digit c s h k = ground arith

read-show : (n : ℕ) → read_signed (skip_spaces (show n)) ≡ some (false, n)
read-show n =
    let (c, s, e, h, k) = show-head n in
    rw (e, read_digit c s h k, ← e, parse_digits-show_nil n) refl

-- The decimal form of a number that fits is read back.
pub stoull-show : (n : ℕ) → n < word_limit → stoull (show n) ≡ some n
unfolding stoull
stoull-show n h = rw (read-show n, lt→ltb n word_limit h) refl

pub stoi-show : (n : ℕ) → n < int_limit → stoi (show n) ≡ some (pos n)
unfolding stoi
stoi-show n h = rw (read-show n, lt→ltb n int_limit h) refl
