-- ===== src/Text.antt =====
-- JavaScript strings as sequences of UTF-16 code units, with the library calls that the client
-- makes on them.
pub mod Number
pub mod Laws
use Prim.Native.Char.{code}
use Prim.Native.String.{String}
use chat_serve.Base.{
  ℕ, ◌≡◌, suc, ◌+◌, ◌-◌, ◌/◌, ◌%◌, min, max, Bool, true, false, ◌&&◌, List, [], ◌∷◌, ◌++◌, Option,
  none, some, if◌then◌else◌, ltb, nat_beq, take, drop, length,
}

abbrev pub Text : Type 0
Text = List ℕ

-- The code units of a literal: a character beyond the basic plane is a surrogate pair.
abbrev pub units : ℕ → Text → Text
units c rest =
    if ltb c 0x10000
    then c ∷ rest
    else (0xd800 + (c - 0x10000) / 0x400) ∷ (0xdc00 + (c - 0x10000) % 0x400) ∷ rest

abbrev pub lit : String → Text
lit String.[] = []
lit (String.◌∷◌ c s) = units (code c) (lit s)

-- `s.startsWith(prefix)`
unfoldable pub starts_with : Text → Text → Bool
starts_with s [] = true
starts_with [] (p ∷ ps) = false
starts_with (c ∷ s) (p ∷ ps) = nat_beq c p && starts_with s ps

split_step : ℕ → ℕ → List Text → List Text
split_step sep c [] = []
split_step sep c (part ∷ parts) = if nat_beq c sep then [] ∷ part ∷ parts else (c ∷ part) ∷ parts

-- `s.split(sep)` for a separator of one unit
unfoldable pub split : ℕ → Text → List Text
unfolding split_step
split sep [] = [] ∷ []
split sep (c ∷ s) = split_step sep c (split sep s)

-- `parts.join(sep)`
unfoldable pub join : Text → List Text → Text
join sep [] = []
join sep (part ∷ []) = part
join sep (part ∷ next ∷ parts) = part ++ (sep ++ join sep (next ∷ parts))

-- `s.indexOf(sep)` for a separator of one unit; `none` is -1
unfoldable pub index_of : ℕ → Text → Option ℕ
index_of sep [] = none
index_of sep (c ∷ s) =
    if nat_beq c sep then some 0 else elim (index_of sep s) [ none ↦ none | some i ↦ some (suc i) ]

-- `s.indexOf(sep, from)`
unfoldable pub index_of_from : ℕ → Text → ℕ → Option ℕ
unfolding index_of
index_of_from sep s from = elim (index_of sep (drop from s)) [
  | none ↦ none
  | some i ↦ some (from + i)
]

-- `s.substring(a, b)`, which swaps its arguments where they are out of order
unfoldable pub substring : Text → ℕ → ℕ → Text
substring s a b = take (max a b - min a b) (drop (min a b) s)

-- `s.substring(a)`
abbrev pub substring_from : Text → ℕ → Text
substring_from s a = drop a s

-- A text without the unit `c`.
abbrev pub Lacks : ℕ → Text → Type 0
Lacks c [] = Unit
Lacks c (d ∷ s) = (nat_beq d c ≡ false) × Lacks c s
