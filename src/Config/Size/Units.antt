-- ===== src/Config/Size/Units.antt =====
-- What every spelling of a size stands for.
use xmorph.Base.{
  ℕ, Bool, true, false, some, ◌+◌, ◌*◌, ltb, ◌==◌, if◌then◌else◌, [], ◌∷◌, ◌++◌, ◌≡◌, ◌≢◌, refl,
  arith, ap, ◌∙◌, sym, append_assoc,
}
use xmorph.Base.Bytes.{Bytes, is_empty, is_space, trim_suffix_byte, to_upper}
use xmorph.Base.Bytes.Number.{max_uint64, parse_uint, parse_uint_sound, IsDigits}
use xmorph.Base.Bytes.Trim.{
  unsnoc-append, cut_suffix_byte-append, trim_suffix_byte-append, to_upper-append, to_upper_digits,
  trim_space_digits_append, trim_space_digits,
}
use xmorph.Base.Result.{ok, err}
use xmorph.Config.Size.{
  overflow, Floats, split_unit, parse_scaled, parse_bytes, parse_trimmed, parse_size,
}

pub data Unit1024 : Type 0 where
  kib mib gib tib : Unit1024

pub data Tail : Type 0 where
  plain i b ib : Tail

abbrev pub letter : Unit1024 → ℕ
letter kib = b'K'
letter mib = b'M'
letter gib = b'G'
letter tib = b'T'

abbrev pub bytes_in : Unit1024 → ℕ
bytes_in kib = 1024
bytes_in mib = 1024 * 1024
bytes_in gib = 1024 * 1024 * 1024
bytes_in tib = 1024 * 1024 * 1024 * 1024

-- The suffix, in upper or in lower case: M, Mi, MB, MiB, m, mi, mb, mib.
abbrev pub suffix : Unit1024 → Tail → Bool → Bytes
suffix u plain true = letter u ∷ []
suffix u i true = letter u ∷ b'i' ∷ []
suffix u b true = letter u ∷ b'B' ∷ []
suffix u ib true = letter u ∷ b'i' ∷ b'B' ∷ []
suffix u plain false = (letter u + 32) ∷ []
suffix u i false = (letter u + 32) ∷ b'i' ∷ []
suffix u b false = (letter u + 32) ∷ b'b' ∷ []
suffix u ib false = (letter u + 32) ∷ b'i' ∷ b'b' ∷ []

abbrev upper_tail : Tail → Bytes
upper_tail plain = []
upper_tail i = b'I' ∷ []
upper_tail b = b'B' ∷ []
upper_tail ib = b'I' ∷ b'B' ∷ []

to_upper-suffix :
    (u : Unit1024) (t : Tail) (up : Bool) → to_upper (suffix u t up) ≡ letter u ∷ upper_tail t
unfolding to_upper
to_upper-suffix kib t up = ground arith
to_upper-suffix mib t up = ground arith
to_upper-suffix gib t up = ground arith
to_upper-suffix tib t up = ground arith

abbrev bare : Bytes → Bytes
bare s = trim_suffix_byte b'I' (trim_suffix_byte b'B' s)

trim_B-append :
    (s : Bytes) (y : ℕ)
    → trim_suffix_byte b'B' (s ++ (y ∷ [])) ≡ (if y == b'B' then s else s ++ (y ∷ []))
trim_B-append s y = trim_suffix_byte-append b'B' s y

bare-letter : (d : Bytes) (u : Unit1024) → bare (d ++ (letter u ∷ [])) ≡ d ++ (letter u ∷ [])
bare-letter d u =
    ground (arith, trim_B-append d (letter u), trim_suffix_byte-append b'I' d (letter u))

bare_i : (d : Bytes) → bare (d ++ (b'I' ∷ [])) ≡ d
bare_i d = ground (arith, trim_B-append d b'I', trim_suffix_byte-append b'I' d b'I')

bare_b :
    (d : Bytes) (u : Unit1024) → bare ((d ++ (letter u ∷ [])) ++ (b'B' ∷ [])) ≡ d ++ (letter u ∷ [])
bare_b d u =
    ground
      (arith, trim_B-append (d ++ (letter u ∷ [])) b'B', trim_suffix_byte-append b'I' d (letter u))

bare_ib : (d : Bytes) → bare ((d ++ (b'I' ∷ [])) ++ (b'B' ∷ [])) ≡ d
bare_ib d =
    ground (arith, trim_B-append (d ++ (b'I' ∷ [])) b'B', trim_suffix_byte-append b'I' d b'I')

bare_suffix :
    (d : Bytes) (u : Unit1024) (t : Tail)
    → bare (d ++ (letter u ∷ upper_tail t)) ≡ d ++ (letter u ∷ [])
bare_suffix d u plain = bare-letter d u
bare_suffix d u i =
    rw (sym (append_assoc d (letter u ∷ []) (b'I' ∷ []))) (bare_i (d ++ (letter u ∷ [])))
bare_suffix d u b = rw (sym (append_assoc d (letter u ∷ []) (b'B' ∷ []))) (bare_b d u)
bare_suffix d u ib =
    rw
      (
        sym (append_assoc d (letter u ∷ []) (b'I' ∷ b'B' ∷ [])),
        sym (append_assoc (d ++ (letter u ∷ [])) (b'I' ∷ []) (b'B' ∷ [])),
      )
      (bare_ib (d ++ (letter u ∷ [])))

split_unit-letter : (d : Bytes) (u : Unit1024) → split_unit (d ++ (letter u ∷ [])) ≡ (bytes_in u, d)
unfolding split_unit
split_unit-letter d kib = ground (arith, unsnoc-append d (letter kib))
split_unit-letter d mib = ground (arith, unsnoc-append d (letter mib))
split_unit-letter d gib = ground (arith, unsnoc-append d (letter gib))
split_unit-letter d tib = ground (arith, unsnoc-append d (letter tib))

parse_bytes_lem :
    (d : Bytes) (u : Unit1024) (t : Tail) (up : Bool)
    → IsDigits d
    → parse_bytes (d ++ suffix u t up) ≡ parse_scaled (bytes_in u, d)
unfolding parse_bytes
parse_bytes_lem d u t up h = rw (
  to_upper-append,
  to_upper_digits d h,
  to_upper-suffix,
  bare_suffix d u t,
  split_unit-letter d u,
)

parse_scaled_lem :
    (d : Bytes) (v : ℕ) (u : Unit1024)
    → parse_uint max_uint64 d ≡ some v
    → parse_scaled (bytes_in u, d)
      ≡ (if ltb max_uint64 (v * bytes_in u) then err overflow else ok (v * bytes_in u))
unfolding parse_scaled
parse_scaled_lem d v kib e = ground (arith, trim_space_digits d ((parse_uint_sound _ d v e).1))
parse_scaled_lem d v mib e = ground (arith, trim_space_digits d ((parse_uint_sound _ d v e).1))
parse_scaled_lem d v gib e = ground (arith, trim_space_digits d ((parse_uint_sound _ d v e).1))
parse_scaled_lem d v tib e = ground (arith, trim_space_digits d ((parse_uint_sound _ d v e).1))

-- A suffix ends in a byte that is neither trimmed nor a percent sign.
abbrev EndsPlainly : Bytes → Type 0
EndsPlainly w =
    (s : Bytes) × (y : ℕ) × (w ≡ s ++ (y ∷ [])) × (is_space y ≡ false) × ((y == b'%') ≡ false)

suffix-EndsPlainly : (u : Unit1024) (t : Tail) (up : Bool) → EndsPlainly (suffix u t up)
unfolding is_space
suffix-EndsPlainly u i true = (letter u ∷ [], b'i', refl, refl, refl)
suffix-EndsPlainly u i false = ((letter u + 32) ∷ [], b'i', refl, refl, refl)
suffix-EndsPlainly u b true = (letter u ∷ [], b'B', refl, refl, refl)
suffix-EndsPlainly u b false = ((letter u + 32) ∷ [], b'b', refl, refl, refl)
suffix-EndsPlainly u ib true = (letter u ∷ b'i' ∷ [], b'B', refl, refl, refl)
suffix-EndsPlainly u ib false = ((letter u + 32) ∷ b'i' ∷ [], b'b', refl, refl, refl)
suffix-EndsPlainly kib plain true = ([], b'K', refl, refl, refl)
suffix-EndsPlainly kib plain false = ([], b'k', refl, refl, refl)
suffix-EndsPlainly mib plain true = ([], b'M', refl, refl, refl)
suffix-EndsPlainly mib plain false = ([], b'm', refl, refl, refl)
suffix-EndsPlainly gib plain true = ([], b'G', refl, refl, refl)
suffix-EndsPlainly gib plain false = ([], b'g', refl, refl, refl)
suffix-EndsPlainly tib plain true = ([], b'T', refl, refl, refl)
suffix-EndsPlainly tib plain false = ([], b't', refl, refl, refl)

append-is_empty : (d s : Bytes) → d ≢ [] → is_empty (d ++ s) ≡ false
append-is_empty [] s n = absurd (n refl)
append-is_empty (x ∷ d) s n = refl

module _ (floats : Floats) where
  parse_trimmed-bytes :
      (d s : Bytes) (y total : ℕ)
      → d ≢ []
      → (y == b'%') ≡ false
      → parse_trimmed floats (d ++ (s ++ (y ∷ []))) total ≡ parse_bytes (d ++ (s ++ (y ∷ [])))
  unfolding parse_trimmed
  parse_trimmed-bytes d s y total n p = ground (
    arith,
    append-is_empty d (s ++ (y ∷ [])) n,
    cut_suffix_byte-append b'%' (d ++ s) y,
    append_assoc d s (y ∷ []),
  )

  parse_size-bytes :
      (d w : Bytes) (total : ℕ)
      → d ≢ []
      → IsDigits d
      → EndsPlainly w
      → parse_size floats (d ++ w) total ≡ parse_bytes (d ++ w)
  unfolding parse_size
  parse_size-bytes d w total n h (s, y, e, k, p) = rw e (
      ap (λ t. parse_trimmed floats t total) (trim_space_digits_append d s y n h k)
      ∙ parse_trimmed-bytes d s y total n p)

  -- A text d of decimal digits whose value v fits in 64 bits, followed by X, Xi, XB or XiB for X
  -- one of K, M, G and T, or by the same in lower case, parses to v times the power of 1024 that X
  -- stands for, and is refused as an overflow exactly if that product does not fit in 64 bits.
  -- The total memory and the floating-point operations do not matter.
  pub parse_size-suffix :
      (d : Bytes) (v : ℕ) (u : Unit1024) (t : Tail) (up : Bool) (total : ℕ)
      → parse_uint max_uint64 d ≡ some v
      → parse_size floats (d ++ suffix u t up) total
        ≡ (if ltb max_uint64 (v * bytes_in u) then err overflow else ok (v * bytes_in u))
  parse_size-suffix d v u t up total e =
      let (n, h, _) = parse_uint_sound max_uint64 d v e in
      parse_size-bytes d (suffix u t up) total n h (suffix-EndsPlainly u t up)
      ∙ parse_bytes_lem d u t up h
      ∙ parse_scaled_lem d v u e
