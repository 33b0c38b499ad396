-- ===== src/Config/Size.antt =====
-- internal/config/size.go: `ParseSize`. The floating-point numbers of the percentage branch are an
-- interface: the text that strconv.ParseFloat accepts, the two comparisons, and the arithmetic.
pub mod Units
use xmorph.Base.{
  ℕ, Bool, true, false, Option, none, some, ◌-◌, ◌*◌, ◌/◌, ◌^◌, ◌%◌, ◌||◌, ltb, ◌==◌, if◌then◌else◌,
  [], ◌∷◌,
}
use xmorph.Base.Bytes.{
  Bytes, trim_space, is_empty, cut_suffix_byte, trim_suffix_byte, to_upper, unsnoc,
}
use xmorph.Base.Bytes.Number.{max_uint64, parse_uint}
use xmorph.Base.Result.{Result, ok, err, ◌>>=◌, ◌>>◌, refuse_if}

pub data SizeError : Type 0 where
  empty_size bad_percentage percentage_out_of_range bad_size overflow : SizeError

pub record Floats : Type 1 where
  pub Float : Type 0
  -- strconv.ParseFloat(s, 64)
  pub parse : Bytes → Option Float
  -- v <= 0
  pub not_positive : Float → Bool
  -- v > 100
  pub above_hundred : Float → Bool
  -- uint64(float64(total) * v / 100)
  pub share : ℕ → Float → ℕ

-- The number that the last byte multiplies by, and what is left of the text.
unfoldable pub unit_of : ℕ → ℕ
unit_of c =
    if c == b'K'
    then 2 ^ 10
    else if c == b'M'
    then 2 ^ 20
    else if c == b'G'
    then 2 ^ 30
    else if c == b'T'
    then 2 ^ 40
    else 1

unfoldable pub split_unit : Bytes → ℕ × Bytes
unfolding unit_of
split_unit u = elim (unsnoc u) [
  | none ↦ (1, u)
  | some (before, last) ↦ if ltb 1 (unit_of last) then (unit_of last, before) else (1, u)
]

module _ (floats : Floats) where
  open floats use {Float, parse, not_positive, above_hundred, share}

  unfoldable pub parse_percentage : Bytes → ℕ → Result SizeError ℕ
  parse_percentage pct total = elim (parse (trim_space pct)) [
    | none ↦ err bad_percentage
    | some v ↦
        if not_positive v || above_hundred v
        then err percentage_out_of_range
        else ok (share total v)
  ]

-- n * mult, refused where it passes 2^64 - 1.
unfoldable pub scale_size : ℕ → ℕ → Result SizeError ℕ
scale_size n mult = if ltb (max_uint64 / mult) n then err overflow else ok ((n * mult) % 2 ^ 64)

unfoldable pub parse_scaled : ℕ × Bytes → Result SizeError ℕ
unfolding scale_size
parse_scaled (mult, u) = elim (parse_uint max_uint64 (trim_space u)) [
  | none ↦ err bad_size
  | some n ↦ scale_size n mult
]

unfoldable pub parse_bytes : Bytes → Result SizeError ℕ
parse_bytes s =
    parse_scaled (split_unit (trim_suffix_byte b'I' (trim_suffix_byte b'B' (to_upper s))))

module _ (floats : Floats) where
  unfoldable pub parse_trimmed : Bytes → ℕ → Result SizeError ℕ
  parse_trimmed s total = if is_empty s then err empty_size else elim (cut_suffix_byte b'%' s) [
    | some pct ↦ parse_percentage floats pct total
    | none ↦ parse_bytes s
  ]

  unfoldable pub parse_size : Bytes → ℕ → Result SizeError ℕ
  parse_size s total = parse_trimmed (trim_space s) total
