-- ===== src/Tailscale.antt =====
-- internal/helpers/tsargs.go, internal/postpivot/hostname.go and internal/tsnetauth: the arguments and
-- the name that Tailscale gets, and the two servers, before the pivot and after it. tsnet.Server is a
-- library's; whether it comes up is an answer from outside.
pub mod Hostname
use xmorph.Base.{
  ℕ, Bool, true, false, Option, none, some, List, [], ◌∷◌, ◌++◌, ◌||◌, not, if◌then◌else◌, ◌==◌,
}
use xmorph.Base.Bytes.{Bytes, codes, is_empty, cut_prefix}
use xmorph.Base.Bytes.Lines.{keep_field}
use xmorph.Base.Bytes.Unicode.{unicode_fields}
use xmorph.Base.Result.{Result, ok, err}
use xmorph.Base.Trace.{Traced, ◌and_do◌, attempt, tolerate}
use xmorph.Config.Types.{Config, tailscale_enabled}
use xmorph.Path.{join}

-- `readHostname`, with the host's name if it has one
abbrev pub read_hostname : Option Bytes → Bytes
read_hostname none = codes "host"
read_hostname (some h) = h

unfoldable pub resolve_tailscale_args : Option Bytes → Config → Bytes
resolve_tailscale_args host c =
    if not (tailscale_enabled c)
    then codes "--ssh"
    else if not (is_empty c.tailscale_args)
    then c.tailscale_args
    else codes "--ssh --hostname="
      ++ read_hostname host
      ++ codes "-xmorph"
      ++ (if is_empty c.tailscale_server
          then []
          else codes " --login-server=" ++ c.tailscale_server)

abbrev pub is_blank : ℕ → Bool
is_blank c = c == 32 || c == b'\t'

-- The loop of `splitArgs`, with the word that is being read.
unfoldable pub split_from : Bytes → Bytes → List Bytes
split_from cur [] = keep_field cur []
split_from cur (c ∷ s) =
    let after_blank = split_from [] s in
    let longer = split_from (cur ++ c ∷ []) s in
    if is_blank c then keep_field cur after_blank else longer

unfoldable pub split_args : Bytes → List Bytes
unfolding split_from
split_args s = split_from [] s

abbrev pub hostname_flag : Bytes
hostname_flag = codes "--hostname="

-- The loop of `TailscaleHostname`: the first that is not empty.
unfoldable pub given_hostname : List Bytes → Option Bytes
given_hostname [] = none
given_hostname (token ∷ tokens) =
    let later = given_hostname tokens in
    elim (cut_prefix hostname_flag token) [
      | none ↦ later
      | some rest ↦ if is_empty rest then later else some rest
    ]

abbrev pub or_own : Option Bytes → Option Bytes → Bytes
or_own host none = read_hostname host ++ codes "-xmorph"
or_own host (some name) = name

unfoldable pub tailscale_hostname : Option Bytes → Config → Bytes
tailscale_hostname host c =
    let given : Option Bytes =
      if is_empty c.tailscale_args then none else given_hostname (split_args c.tailscale_args) in
    or_own host given

-- The loop of `hostnameFromArgs`: the first, empty or not.
unfoldable pub first_hostname : List Bytes → Bytes
first_hostname [] = []
first_hostname (token ∷ tokens) =
    let later = first_hostname tokens in
    elim (cut_prefix hostname_flag token) [ none ↦ later | some rest ↦ rest ]

unfoldable pub hostname_from_args : Bytes → Bytes
unfolding first_hostname
hostname_from_args args = first_hostname (unicode_fields args)

-- What a tsnet.Server is made with.
pub record Server : Type 0 where
  pub dir : Bytes
  pub auth_key : Bytes
  pub hostname : Bytes
  pub control_url : Bytes

pub data Call : Type 0 where
  make_state_dir : Bytes → Call
  bring_up : Server → Call
  close : Server → Call

pub data AuthError : Type 0 where
  dir_failed up_failed : AuthError

module _ (works : Call → Bool) where
  abbrev close_after : Server → Bool → Traced Call AuthError (Unit {0})
  close_after s true = (bring_up s ∷ close s ∷ [], ok tt)
  close_after s false = (bring_up s ∷ close s ∷ [], err up_failed)

  -- `PreAuth`: the server is closed whether it came up or not.
  unfoldable pub pre_auth : Bytes → Bytes → Bytes → Bytes → Traced Call AuthError (Unit {0})
  pre_auth rootfs auth_key hostname control_url =
      let dir = join rootfs (codes "var/lib/tailscale") in
      let s : Server = record {
        dir = dir;
        auth_key = auth_key;
        hostname = hostname;
        control_url = control_url;
      } in
      attempt (make_state_dir dir) dir_failed (works (make_state_dir dir))
      and_do close_after s (works (bring_up s))

  -- `NewPostPivotServer`: the server is open exactly if it came up.
  unfoldable pub new_post_pivot_server : Bytes → Traced Call AuthError Server
  new_post_pivot_server hostname =
      let s : Server = record {
        dir = codes "/var/lib/tailscale";
        auth_key = [];
        hostname = hostname;
        control_url = [];
      } in
      if works (bring_up s)
      then (bring_up s ∷ [], ok s)
      else (bring_up s ∷ close s ∷ [], err up_failed)
