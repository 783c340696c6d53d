-- ===== src/Format.antt =====
-- `formatFileSize` of web/src/utils.js.
use chat_serve.Base.{
  ℕ, ◌+◌, ◌*◌, ◌/◌, ◌%◌, ◌≤◌, ◌<◌, ◌≡◌, ◌∷◌, ◌++◌, arith, ◌⊎◌, inl, inr, Bool-cases, ltb→lt,
  if◌then◌else◌, ltb, Num, nan, int, pos, negsuc, nat,
}
use chat_serve.Text.{Text, lit}
use chat_serve.Text.Number.{show, show_num}

-- The tenths of `n / unit` that `toFixed(1)` shows: the nearest, and of two the larger. For a unit
-- that is a power of two the division of doubles is exact.
unfoldable pub tenths : ℕ → ℕ → ℕ
tenths n unit = (20 * n + unit) / (2 * unit)

-- `(n / unit).toFixed(1)`
unfoldable pub to_fixed_1 : ℕ → ℕ → Text
to_fixed_1 n unit = let t = tenths n unit in show (t / 10) ++ b'.' ∷ show (t % 10)

unfoldable pub format_file_size : Num → Text
format_file_size nan = lit "NaN MB"
format_file_size (int (negsuc n)) = show_num (int (negsuc n)) ++ lit " B"
format_file_size (int (pos n)) =
    if ltb n 1024
    then show n ++ lit " B"
    else if ltb n 1048576
    then to_fixed_1 n 1024 ++ lit " KB"
    else to_fixed_1 n 1048576 ++ lit " MB"

abbrev pub kib : ℕ → Text
kib t = (show (t / 10) ++ b'.' ∷ show (t % 10)) ++ lit " KB"

abbrev pub mib : ℕ → Text
mib t = (show (t / 10) ++ b'.' ∷ show (t % 10)) ++ lit " MB"

-- The tenths `t` are nearest to `n / unit`: off by at most a twentieth of the unit.
abbrev pub IsNearest : ℕ → ℕ → ℕ → Type 0
IsNearest n unit t = (20 * n ≤ 2 * unit * t + unit) × (2 * unit * t ≤ 20 * n + unit)

-- The text for every size: a number of bytes below 1024 exactly; below 1024 * 1024 the nearest
-- tenth of KB; from there on the nearest tenth of MB.
pub format_file_size_lem :
    (n : ℕ)
    → ((n < 1024) × (format_file_size (nat n) ≡ show n ++ lit " B"))
      ⊎ ((1024 ≤ n)
          × (n < 1048576)
          × ((t : ℕ) × (format_file_size (nat n) ≡ kib t) × IsNearest n 1024 t))
      ⊎ ((1048576 ≤ n) × ((t : ℕ) × (format_file_size (nat n) ≡ mib t) × IsNearest n 1048576 t))
unfolding format_file_size to_fixed_1 tenths
format_file_size_lem n = elim (Bool-cases (ltb n 1024)) [
  | inl bytes ↦ inl (ltb→lt n 1024 bytes, ground arith)
  | inr more ↦ elim (Bool-cases (ltb n 1048576)) [
    | inl kilo ↦ inr (
        inl (
          ground arith,
          ltb→lt n 1048576 kilo,
          (tenths n 1024, ground arith, (omega arith, omega arith)),
        ))
    | inr mega ↦
        inr (inr (ground arith, (tenths n 1048576, ground arith, (omega arith, omega arith))))
  ]
]
