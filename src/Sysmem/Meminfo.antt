-- ===== src/Sysmem/Meminfo.antt =====
-- Reading back what the kernel prints to /proc/meminfo.
use xmorph.Base.{
  ℕ, zero, suc, Bool, true, false, some, List, [], ◌∷◌, ◌++◌, ◌*◌, ◌%◌, ◌^◌, ◌<◌, ◌==◌,
  if◌then◌else◌, map, All, ◌≡◌, ◌≢◌, refl, ap, sym, ◌∙◌, arith, Bool-cases, inl, inr,
}
use xmorph.Base.Bytes.{
  Bytes, codes, contains_byte, equal, equal_sound, trim_space, trim_left, trim_suffix_byte,
  is_space,
}
use xmorph.Base.Bytes.Cut.{cut-append, contains_byte-append}
use xmorph.Base.Bytes.Decimal.{decimal, decimal-IsDigits, parse_uint-decimal}
use xmorph.Base.Bytes.Lines.{scan_lines, fields, split, drop_last_empty, keep_field}
use xmorph.Base.Bytes.Number.{IsDigits, max_uint64, parse_uint}
use xmorph.Base.Bytes.Trim.{trim_space_digits, trim_space_digits_append}
use xmorph.Base.Bytes.Words.{
  IsWord, split-append, fields-append, open_fields-IsWord, trim_suffix_byte_absent,
}
use xmorph.Base.Result.{Result, ok, err}
use xmorph.Sysmem.{
  MemInfo, ReadError, no_mem_total, set_key, set_field, read_line, read_lines, fall_back, read_from,
}

-- A line of the kernel: a name, blanks, a number, and a unit for all but counts.
pub record Printed : Type 0 where
  pub key : Bytes
  pub blanks : ℕ
  pub amount : ℕ
  pub has_unit : Bool

abbrev pub padded : ℕ → Bytes → Bytes
padded zero s = s
padded (suc n) s = 32 ∷ padded n s

abbrev pub value_of : Printed → Bytes
value_of e = if e.has_unit then decimal e.amount ++ codes " kB" else decimal e.amount

abbrev pub line_of : Printed → Bytes
line_of e = e.key ++ b':' ∷ padded e.blanks (value_of e)

abbrev pub text_of : List Printed → Bytes
text_of [] = []
text_of (e ∷ es) = line_of e ++ b'\n' ∷ text_of es

-- A name without a colon or the end of a line, and a number of KiB that fits in a uint64 of bytes.
pub record IsPrinted (e : Printed) : Type 0 where
  pub no_colon : contains_byte b':' e.key ≡ false
  pub no_lf : contains_byte b'\n' e.key ≡ false
  pub no_cr : contains_byte b'\r' e.key ≡ false
  pub fits : e.amount * 1024 < 2 ^ 64

-- The bytes that the last entry of the name gives, or those from before.
abbrev pub last_bytes : Bytes → List Printed → ℕ → ℕ
last_bytes name [] before = before
last_bytes name (e ∷ es) before =
    last_bytes name es (if equal e.key name then e.amount * 1024 else before)

-- What a machine that prints those entries has.
abbrev pub printed_as : List Printed → Result ReadError MemInfo
printed_as es =
    let total = last_bytes (codes "MemTotal") es 0 in
    let free = last_bytes (codes "MemFree") es 0 in
    let available = last_bytes (codes "MemAvailable") es 0 in
    if total == 0
    then err no_mem_total
    else ok (record {
      total = total;
      free = free;
      available = if available == 0 then free else available;
    })

digits-IsWord : (s : Bytes) → IsDigits s → IsWord s
unfolding is_space
digits-IsWord [] h = tt
digits-IsWord (c ∷ s) (d, h) = (ground arith, digits-IsWord s h)

unit-IsWord : IsWord (codes "kB")
unfolding is_space
unit-IsWord = (refl, (refl, tt))

decimal_nonempty : (n : ℕ) → decimal n ≢ []
unfolding parse_uint
decimal_nonempty n h =
    let e : parse_uint n [] ≡ some n =
      ap (parse_uint n) (sym h) ∙ parse_uint-decimal n n (omega arith) in
    cc

keep_field_nonempty : (s : Bytes) (fs : List Bytes) → s ≢ [] → keep_field s fs ≡ s ∷ fs
keep_field_nonempty [] fs n = absurd (n refl)
keep_field_nonempty (c ∷ s) fs n = refl

trim_space-padded : (n : ℕ) (s : Bytes) → trim_space (padded n s) ≡ trim_space s
unfolding trim_space trim_left is_space
trim_space-padded zero s = refl
trim_space-padded (suc n) s = trim_space-padded n s

trim_space-value_of : (e : Printed) → trim_space (value_of e) ≡ value_of e
trim_space-value_of e = elim (Bool-cases e.has_unit) [
  | inl u ↦ rw u (
      trim_space_digits_append (decimal e.amount) (codes " k") b'B' (decimal_nonempty e.amount)
        (decimal-IsDigits e.amount) (unfold is_space in refl))
  | inr u ↦ rw u (trim_space_digits (decimal e.amount) (decimal-IsDigits e.amount))
]

first_field : (e : Printed) → (rest : List Bytes) × (fields (value_of e) ≡ decimal e.amount ∷ rest)
unfolding fields
first_field e = elim (Bool-cases e.has_unit) [
  | inl u ↦ (
    codes "kB" ∷ [],
    rw u (
        fields-append (decimal e.amount) (codes "kB")
          (digits-IsWord (decimal e.amount) (decimal-IsDigits e.amount)) unit-IsWord
        ∙ keep_field_nonempty (decimal e.amount) _ (decimal_nonempty e.amount)),
  )
  | inr u ↦ (
    [],
    rw u (
        ap (λ (r : Bytes × List Bytes). keep_field r.0 r.1)
          (open_fields-IsWord (decimal e.amount)
            (digits-IsWord (decimal e.amount) (decimal-IsDigits e.amount)))
        ∙ keep_field_nonempty (decimal e.amount) [] (decimal_nonempty e.amount)),
  )
]

set_field-value_of :
    (e : Printed) (m : MemInfo)
    → IsPrinted e
    → set_field e.key (fields (value_of e)) m ≡ set_key e.key (e.amount * 1024) m
unfolding set_field
set_field-value_of e m v =
    let (rest, first) = first_field e in
    let same : (e.amount * 1024) % 2 ^ 64 ≡ e.amount * 1024 = omega (arith, v.fits) in
    ap (λ fs. set_field e.key fs m) first
    ∙ rw (set_field, parse_uint-decimal max_uint64 e.amount (omega (arith, v.fits)), same) refl

read_line-line_of :
    (e : Printed) (m : MemInfo)
    → IsPrinted e
    → read_line (line_of e) m ≡ set_key e.key (e.amount * 1024) m
unfolding read_line
read_line-line_of e m v =
    rw
      (
        read_line,
        cut-append b':' e.key (padded e.blanks (value_of e)) v.no_colon,
        trim_space-padded e.blanks (value_of e),
        trim_space-value_of e,
      )
      (set_field-value_of e m v)

-- A name is none of the others.
equal_other : (key a b : Bytes) → equal a b ≡ false → equal key a ≡ true → equal key b ≡ false
equal_other key a b n h = rw (equal_sound key a h) n

set_key_each :
    (key : Bytes) (n : ℕ) (m : MemInfo)
    → set_key key n m ≡ record {
      total = if equal key (codes "MemTotal") then n else m.total;
      free = if equal key (codes "MemFree") then n else m.free;
      available = if equal key (codes "MemAvailable") then n else m.available;
    }
unfolding set_key
set_key_each key n m = ground (
  arith,
  equal_other key (codes "MemTotal") (codes "MemFree") (unfold equal in refl),
  equal_other key (codes "MemTotal") (codes "MemAvailable") (unfold equal in refl),
  equal_other key (codes "MemFree") (codes "MemAvailable") (unfold equal in refl),
)

read_lines-line_of :
    (es : List Printed) (m : MemInfo)
    → All IsPrinted es
    → read_lines (map line_of es) m ≡ record {
      total = last_bytes (codes "MemTotal") es m.total;
      free = last_bytes (codes "MemFree") es m.free;
      available = last_bytes (codes "MemAvailable") es m.available;
    }
unfolding read_lines
read_lines-line_of [] m h = refl
read_lines-line_of (e ∷ es) m (v, h) =
    ap (read_lines (map line_of es))
      (read_line-line_of e m v ∙ set_key_each e.key (e.amount * 1024) m)
    ∙ read_lines-line_of es _ h

digits-contains_byte : (c : ℕ) (s : Bytes) → c < 32 → IsDigits s → contains_byte c s ≡ false
digits-contains_byte c [] k h = refl
digits-contains_byte c (x ∷ s) k (d, h) = ground (arith, digits-contains_byte c s k h)

value_of-contains_byte : (c : ℕ) (e : Printed) → c < 32 → contains_byte c (value_of e) ≡ false
value_of-contains_byte c e k = ground (
  arith,
  digits-contains_byte c (decimal e.amount) k (decimal-IsDigits e.amount),
  contains_byte-append c (decimal e.amount) (codes " kB"),
)

padded-contains_byte :
    (c n : ℕ) (s : Bytes)
    → c < 32
    → contains_byte c s ≡ false
    → contains_byte c (padded n s) ≡ false
padded-contains_byte c zero s h k = k
padded-contains_byte c (suc n) s h k = ground (arith, padded-contains_byte c n s h k)

line_of-contains_byte :
    (c : ℕ) (e : Printed)
    → c < 32
    → contains_byte c e.key ≡ false
    → contains_byte c (line_of e) ≡ false
line_of-contains_byte c e k h =
    let v = padded-contains_byte c e.blanks (value_of e) k (value_of-contains_byte c e k) in
    rw (contains_byte-append c e.key (b':' ∷ padded e.blanks (value_of e)), h, v)
      (ground (arith, k))

drop_last_empty-cons :
    (key rest : Bytes) (c : ℕ) (ls : List Bytes)
    → drop_last_empty ((key ++ c ∷ rest) ∷ ls) ≡ (key ++ c ∷ rest) ∷ drop_last_empty ls
drop_last_empty-cons [] rest c ls = refl
drop_last_empty-cons (x ∷ key) rest c ls = refl

split-text_of :
    (es : List Printed)
    → All IsPrinted es
    → drop_last_empty (split b'\n' (text_of es)) ≡ map line_of es
unfolding split
split-text_of [] h = refl
split-text_of (e ∷ es) (v, h) =
    ap drop_last_empty (
      split-append b'\n' (line_of e) (text_of es)
        (line_of-contains_byte b'\n' e (omega arith) v.no_lf))
    ∙ drop_last_empty-cons e.key _ b':' _
    ∙ ap (λ ls. line_of e ∷ ls) (split-text_of es h)

trim-line_of :
    (es : List Printed)
    → All IsPrinted es
    → map (trim_suffix_byte b'\r') (map line_of es) ≡ map line_of es
trim-line_of [] h = refl
trim-line_of (e ∷ es) (v, h) =
    rw
      (
        trim_suffix_byte_absent b'\r' (line_of e)
            (line_of-contains_byte b'\r' e (omega arith) v.no_cr),
        trim-line_of es h,
      )
      refl

scan_lines-text_of :
    (es : List Printed) → All IsPrinted es → scan_lines (text_of es) ≡ map line_of es
unfolding scan_lines
scan_lines-text_of es h = ap (map (trim_suffix_byte b'\r')) (split-text_of es h) ∙ trim-line_of es h

-- What the kernel prints is read back: from lines of any names, paddings and numbers that fit, the
-- total, the free and the available memory are those of the last lines named MemTotal, MemFree and
-- MemAvailable, in bytes at 1024 to a kB; without an available memory, or with one of 0, the free
-- memory stands for it; and it is an error exactly if there is no total, or it is 0.
pub read_from-printed_as :
    (es : List Printed) → All IsPrinted es → read_from (some (text_of es)) ≡ printed_as es
unfolding read_from fall_back
read_from-printed_as es h =
    ap (λ ls. fall_back (read_lines ls (record { total = 0; free = 0; available = 0 })))
      (scan_lines-text_of es h)
    ∙ ap fall_back (read_lines-line_of es _ h)
