-- ===== src/Sysmem.antt =====
-- internal/sysmem/meminfo.go: reading /proc/meminfo, and the room that the pivot leaves free.
pub mod Headroom
pub mod Meminfo
use xmorph.Base.{
  ℕ, Bool, true, false, Option, none, some, List, [], ◌∷◌, ◌-◌, ◌*◌, ◌/◌, ◌%◌, ◌^◌, ltb, leb, ◌==◌,
  if◌then◌else◌,
}
use xmorph.Base.Bytes.{Bytes, codes, cut, equal, trim_space}
use xmorph.Base.Bytes.Lines.{scan_lines, fields}
use xmorph.Base.Bytes.Number.{max_uint64, parse_uint}
use xmorph.Base.Result.{Result, ok, err}

pub record MemInfo : Type 0 where
  pub total : ℕ
  pub free : ℕ
  pub available : ℕ

-- The `switch` on the key.
unfoldable pub set_key : Bytes → ℕ → MemInfo → MemInfo
set_key key bytes m =
    if equal key (codes "MemTotal")
    then record m { total = bytes }
    else if equal key (codes "MemFree")
    then record m { free = bytes }
    else if equal key (codes "MemAvailable")
    then record m { available = bytes }
    else m

-- A value in kB, multiplied in uint64.
unfoldable pub set_field : Bytes → List Bytes → MemInfo → MemInfo
set_field key [] m = m
set_field key (f ∷ fs) m = elim (parse_uint max_uint64 f) [
  | none ↦ m
  | some n ↦ set_key key ((n * 1024) % 2 ^ 64) m
]

-- One line of the file; a line that is not understood changes nothing.
unfoldable pub read_line : Bytes → MemInfo → MemInfo
read_line line m = elim (cut b':' line) [
  | none ↦ m
  | some (key, rest) ↦ set_field key (fields (trim_space rest)) m
]

unfoldable pub read_lines : List Bytes → MemInfo → MemInfo
read_lines [] m = m
read_lines (line ∷ lines) m = read_lines lines (read_line line m)

pub data ReadError : Type 0 where
  cannot_open no_mem_total : ReadError

-- MemAvailable is missing on very old kernels.
unfoldable pub fall_back : MemInfo → Result ReadError MemInfo
fall_back m =
    if m.total == 0
    then err no_mem_total
    else ok (record m { available = if m.available == 0 then m.free else m.available })

-- The content of the file, if it could be opened.
unfoldable pub read_from : Option Bytes → Result ReadError MemInfo
unfolding fall_back
read_from none = err cannot_open
read_from (some text) =
    fall_back (read_lines (scan_lines text) (record { total = 0; free = 0; available = 0 }))

unfoldable pub reserve_bytes : MemInfo → ℕ
reserve_bytes m = m.total / 10

unfoldable pub recommend_rootfs_bytes : MemInfo → ℕ
unfolding reserve_bytes
recommend_rootfs_bytes m =
    if leb m.available (reserve_bytes m) then 0 else m.available - reserve_bytes m

pub data HeadroomError : Type 0 where
  insufficient_ram : HeadroomError

-- The room that stays free beside a rootfs of that size.
unfoldable pub headroom : MemInfo → ℕ → ℕ
headroom m size = if ltb size m.available then m.available - size else 0

-- `warn`, or the error.
unfoldable pub headroom_check : MemInfo → ℕ → Result HeadroomError Bool
unfolding headroom
headroom_check m size =
    if ltb (headroom m size) (m.total / 10)
    then err insufficient_ram
    else ok (ltb (headroom m size) (m.total / 4))
