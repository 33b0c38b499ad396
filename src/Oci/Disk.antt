-- ===== src/Oci/Disk.antt =====
-- What internal/oci/extract.go works on: the entries of a tar stream, and the disk, whose calls are
-- parameters and pass its state on. A stream of tar headers ends, or breaks with a read error.
use xmorph.Base.{ℕ, Bool, List}
use xmorph.Base.Bytes.{Bytes}
use xmorph.Oci.SecureJoin.{Entry}

pub data TypeFlag : Type 0 where
  dir_flag : TypeFlag
  reg_flag : TypeFlag
  symlink_flag : TypeFlag
  link_flag : TypeFlag
  device_flag : TypeFlag
  pax_flag : TypeFlag
  other_flag : TypeFlag

-- `mode` is the header's file mode in Go's encoding.
pub record Header : Type 0 where
  pub name : Bytes
  pub typeflag : TypeFlag
  pub linkname : Bytes
  pub mode : ℕ
  pub content : Bytes

pub data Stream : Type 0 where
  eof : Stream
  broken : Stream
  next : Header → Stream → Stream

pub data Listing : Type 0 where
  missing : Listing
  unlisted : Listing
  listed : List Bytes → Listing

-- The calls of the operating system. Each says whether it succeeded, and what it left.
pub record Disk : Type 1 where
  pub State : Type 0
  pub lstat : State → Bytes → Entry
  pub read_dir : State → Bytes → Listing
  pub mkdir_all : Bytes → State → State × Bool
  pub remove_all : Bytes → State → State × Bool
  pub create_excl : Bytes → State → State × Bool
  pub copy : Bytes → Bytes → State → State × Bool
  pub close : Bytes → State → State × Bool
  pub chmod : Bytes → ℕ → State → State × Bool
  pub symlink : Bytes → Bytes → State → State × Bool
  pub link : Bytes → Bytes → State → State × Bool
  pub make_device : Bytes → Header → State → State × Bool

pub data ExtractError : Type 0 where
  broken_header : ExtractError
  escapes_target : ExtractError
  unresolved : ExtractError
  opaque_failed : ExtractError
  whiteout_failed : ExtractError
  mkdir_failed : ExtractError
  create_failed : ExtractError
  write_failed : ExtractError
  close_failed : ExtractError
  chmod_failed : ExtractError
  symlink_failed : ExtractError
  unresolved_link : ExtractError
  link_failed : ExtractError
  no_layers : ExtractError
  no_layer : ExtractError
  open_failed : ExtractError
  seek_failed : ExtractError
  gzip_failed : ExtractError
