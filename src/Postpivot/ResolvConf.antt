-- ===== src/Postpivot/ResolvConf.antt =====
-- internal/postpivot/resolvconf.go: the resolver configuration of the new root. net.ParseIP, the text
-- and the class of an address, and what the file system allows, are answers from outside; a file that
-- cannot be read is like none.
pub mod Readback
pub mod Usable
use xmorph.Base.{
  ℕ, Bool, true, false, Option, none, some, List, [], ◌∷◌, ◌++◌, ◌&&◌, ◌||◌, not, if◌then◌else◌,
}
use xmorph.Base.Bytes.{Bytes, codes, equal, is_empty, has_prefix, trim_space}
use xmorph.Base.Bytes.Lines.{scan_lines, fields}
use xmorph.Base.Result.{Result, ok, err}

abbrev pub fallback_nameservers : List Bytes
fallback_nameservers = codes "1.1.1.1" ∷ codes "8.8.8.8" ∷ codes "2606:4700:4700::1111" ∷ []

-- An address by its text: ip.String() of what net.ParseIP makes of a text, and ip.IsLoopback().
pub record Net : Type 0 where
  pub parse_ip : Bytes → Option Bytes
  pub is_loopback : Bytes → Bool

pub data ResolvError : Type 0 where
  mkdir_failed write_failed : ResolvError

pub record Disk : Type 0 where
  pub makes_dir : Bool
  pub writes : Bool

abbrev pub nameserver_word : Bytes
nameserver_word = codes "nameserver"

abbrev pub onto : Option Bytes → List Bytes → List Bytes
onto none servers = servers
onto (some s) servers = s ∷ servers

abbrev pub or_fallback : List Bytes → List Bytes
or_fallback [] = fallback_nameservers
or_fallback (s ∷ ss) = s ∷ ss

abbrev pub heading : Bytes
heading = codes "# written by xmorph: the pre-pivot resolver does not survive pivot_root\n"

unfoldable pub server_lines : List Bytes → Bytes
server_lines [] = []
server_lines (s ∷ ss) = codes "nameserver " ++ s ++ b'\n' ∷ server_lines ss

unfoldable pub resolv_text : List Bytes → Bytes
unfolding server_lines
resolv_text servers = heading ++ server_lines servers

module _ (net : Net) where
  -- The first two fields of a line that has them.
  abbrev pub address_of : List Bytes → Option Bytes
  address_of [] = none
  address_of (key ∷ []) = none
  address_of (key ∷ value ∷ more) = if equal key nameserver_word then net.parse_ip value else none

  unfoldable pub server_of_line : Bytes → Option Bytes
  unfolding fields
  server_of_line text =
      let line = trim_space text in
      if is_empty line || has_prefix (codes "#") line || has_prefix (codes ";") line
      then none
      else address_of (fields line)

  unfoldable pub servers_of_lines : List Bytes → List Bytes
  unfolding server_of_line
  servers_of_lines [] = []
  servers_of_lines (l ∷ ls) = onto (server_of_line l) (servers_of_lines ls)

  -- `readNameservers`
  unfoldable pub read_nameservers : Option Bytes → List Bytes
  unfolding servers_of_lines scan_lines
  read_nameservers none = []
  read_nameservers (some text) = servers_of_lines (scan_lines text)

  -- The address can be parsed and is not of a local resolver.
  unfoldable pub is_routable : Bytes → Bool
  is_routable s = elim (net.parse_ip s) [ none ↦ false | some ip ↦ not (net.is_loopback ip) ]

  unfoldable pub filter_routable : List Bytes → List Bytes
  unfolding is_routable
  filter_routable [] = []
  filter_routable (s ∷ ss) =
      let rest = filter_routable ss in if is_routable s then s ∷ rest else rest

  abbrev pub all_loopback : List Bytes → Bool
  all_loopback servers = elim (filter_routable servers) [ [] ↦ true | s ∷ ss ↦ false ]

  -- The servers that are written, from the host's file.
  unfoldable pub chosen_servers : Option Bytes → List Bytes
  unfolding read_nameservers filter_routable
  chosen_servers host = or_fallback (filter_routable (read_nameservers host))

  abbrev pub has_usable : List Bytes → Bool
  has_usable [] = false
  has_usable (s ∷ ss) = not (all_loopback (s ∷ ss))

  -- `EnsureResolvConf`: the new root's file afterwards, from that before and the host's. A file that
  -- stood there is removed before the write, and a write that fails leaves none.
  unfoldable pub ensure_resolv_conf :
      Disk → Option Bytes → Option Bytes → Option Bytes × Result ResolvError (Unit {0})
  ensure_resolv_conf disk before host =
      if has_usable (read_nameservers before)
      then (before, ok tt)
      else if not disk.makes_dir
      then (before, err mkdir_failed)
      else if not disk.writes
      then (none, err write_failed)
      else (some (resolv_text (chosen_servers host)), ok tt)
