-- ===== src/Text/Number.antt =====
-- Numbers as text: `String(n)` and `parseInt(s, 10)`.
use chat_serve.Base.{
  ℕ, zero, suc, ◌+◌, ◌-◌, ◌*◌, ◌/◌, ◌%◌, ◌≤◌, ◌<◌, ◌≡◌, refl, ap, Bool, false, ◌&&◌, ◌||◌,
  append-nil, [], ◌∷◌, ◌++◌, Option, none, some, if◌then◌else◌, ltb, leb, nat_beq, arith,
  Bool-cases, inl, inr, pos, negsuc, Num, nan, int, nat,
}
use chat_serve.Text.{Text, lit, Lacks}

show_digits : ℕ → ℕ → Text → Text
show_digits zero n acc = acc
show_digits (suc fuel) n acc =
    let rest = show_digits fuel (n / 10) ((b'0' + n % 10) ∷ acc) in
    if ltb n 10 then (b'0' + n) ∷ acc else rest

-- `String(n)`; a number has fewer digits than `n + 1`
unfoldable pub show : ℕ → Text
unfolding show_digits
show n = show_digits (suc n) n []

unfoldable pub show_num : Num → Text
show_num nan = lit "NaN"
show_num (int (pos n)) = show n
show_num (int (negsuc n)) = b'-' ∷ show (suc n)

abbrev is_digit : ℕ → Bool
is_digit c = leb b'0' c && leb c b'9'

-- White space and line terminators of the language.
abbrev is_space : ℕ → Bool
is_space c =
    (leb 9 c && leb c 13)
    || nat_beq c 0x20
    || nat_beq c 0xa0
    || nat_beq c 0x1680
    || (leb 0x2000 c && leb c 0x200a)
    || nat_beq c 0x2028
    || nat_beq c 0x2029
    || nat_beq c 0x202f
    || nat_beq c 0x205f
    || nat_beq c 0x3000
    || nat_beq c 0xfeff

abbrev value : Option ℕ → ℕ
value none = 0
value (some n) = n

-- The longest run of digits; `none` if there is no digit.
unfoldable pub parse_digits : Option ℕ → Text → Option ℕ
parse_digits acc [] = acc
parse_digits acc (c ∷ s) =
    if is_digit c then parse_digits (some (10 * value acc + (c - b'0'))) s else acc

trim_start : Text → Text
trim_start [] = []
trim_start (c ∷ s) = if is_space c then trim_start s else c ∷ s

abbrev positive : Option ℕ → Num
positive none = nan
positive (some n) = nat n

abbrev negative : Option ℕ → Num
negative none = nan
negative (some zero) = nat 0
negative (some (suc n)) = int (negsuc n)

parse_signed : Text → Num
unfolding parse_digits
parse_signed [] = nan
parse_signed (c ∷ s) =
    if nat_beq c b'-'
    then negative (parse_digits none s)
    else if nat_beq c b'+'
    then positive (parse_digits none s)
    else positive (parse_digits none (c ∷ s))

-- `parseInt(s, 10)`
unfoldable pub parse_int : Text → Num
unfolding trim_start parse_signed
parse_int s = parse_signed (trim_start s)

parse_digits-show_digits :
    (fuel n : ℕ) (acc : Text)
    → n < fuel
    → parse_digits none (show_digits fuel n acc) ≡ parse_digits (some n) acc
unfolding show_digits parse_digits
parse_digits-show_digits zero n acc h = elim h [ ]
parse_digits-show_digits (suc fuel) n acc h =
    ground (arith, parse_digits-show_digits fuel (n / 10) ((b'0' + n % 10) ∷ acc))

show_digits-append :
    (fuel n : ℕ) (acc rest : Text)
    → show_digits fuel n acc ++ rest ≡ show_digits fuel n (acc ++ rest)
unfolding show_digits
show_digits-append zero n acc rest = refl
show_digits-append (suc fuel) n acc rest =
    ground (arith, show_digits-append fuel (n / 10) ((b'0' + n % 10) ∷ acc) rest)

-- Reading the decimal form of a number goes on behind it with that number.
pub parse_digits-show :
    (n : ℕ) (rest : Text) → parse_digits none (show n ++ rest) ≡ parse_digits (some n) rest
unfolding show
parse_digits-show n rest =
    rw (show_digits-append (suc n) n [] rest)
      (parse_digits-show_digits (suc n) n rest (omega arith))

-- A decimal form begins with a digit.
show_digits-head :
    (fuel n : ℕ) (acc : Text)
    → n < fuel
    → (c : ℕ) × (s : Text) × (show_digits fuel n acc ≡ c ∷ s) × (b'0' ≤ c) × (c ≤ b'9')
unfolding show_digits
show_digits-head zero n acc h = elim h [ ]
show_digits-head (suc fuel) n acc h = elim (Bool-cases (ltb n 10)) [
  | inl small ↦ (b'0' + n, acc, rw small, ground arith, ground arith)
  | inr large ↦ rw large (show_digits-head fuel (n / 10) ((b'0' + n % 10) ∷ acc) (ground arith))
]

pub show-head : (n : ℕ) → (c : ℕ) × (s : Text) × (show n ≡ c ∷ s) × (b'0' ≤ c) × (c ≤ b'9')
unfolding show
show-head n = show_digits-head (suc n) n [] (omega arith)

pub parse_digits-show_nil : (n : ℕ) → parse_digits none (show n) ≡ some n
unfolding parse_digits
parse_digits-show_nil n = rw append-nil at (parse_digits-show n [])

parse_int_digit :
    (c : ℕ) (s : Text)
    → b'0' ≤ c
    → c ≤ b'9'
    → parse_int (c ∷ s) ≡ positive (parse_digits none (c ∷ s))
unfolding parse_int
parse_int_digit c s h k = ground arith

-- `parseInt(String(n), 10)` is `n`.
pub parse_int-show : (n : ℕ) → parse_int (show n) ≡ nat n
parse_int-show n =
    let (c, s, e, h, k) = show-head n in
    rw (e, parse_int_digit c s h k, ← e) (ap positive (parse_digits-show_nil n))

abbrev IsStopped : Text → Type 0
IsStopped [] = Unit
IsStopped (c ∷ s) = is_digit c ≡ false

parse_digits_stopped : (n : ℕ) (rest : Text) → IsStopped rest → parse_digits (some n) rest ≡ some n
unfolding parse_digits
parse_digits_stopped n [] h = refl
parse_digits_stopped n (c ∷ rest) h = rw h

-- A number is determined by its decimal form, also in front of a unit that is no digit.
pub show-injective :
    (n m : ℕ) (r r' : Text) → IsStopped r → IsStopped r' → show n ++ r ≡ show m ++ r' → n ≡ m
show-injective n m r r' h h' e = cc (
  ap (parse_digits none) e,
  parse_digits-show n r,
  parse_digits-show m r',
  parse_digits_stopped n r h,
  parse_digits_stopped m r' h',
)

show_digits-Lacks :
    (sep fuel n : ℕ) (acc : Text)
    → is_digit sep ≡ false
    → Lacks sep acc
    → Lacks sep (show_digits fuel n acc)
unfolding show_digits
show_digits-Lacks sep zero n acc h k = k
show_digits-Lacks sep (suc fuel) n acc h k = elim (Bool-cases (ltb n 10)) [
  | inl small ↦ rw small (ground arith, k)
  | inr large ↦
      rw large (show_digits-Lacks sep fuel (n / 10) ((b'0' + n % 10) ∷ acc) h (ground arith, k))
]

-- A decimal form holds digits only.
pub show-Lacks : (sep n : ℕ) → is_digit sep ≡ false → Lacks sep (show n)
unfolding show
show-Lacks sep n h = show_digits-Lacks sep (suc n) n [] h tt
