-- ===== src/Tests/Remote.antt =====
-- Runs of what the new root needs to be reached: its mounts, its resolver, its log and its servers.
use xmorph.Base.{
  ◌++◌, ℕ, Bool, true, false, Option, none, some, List, [], ◌∷◌, ◌&&◌, not, any, if◌then◌else◌, ◌≡◌,
  ◌≤◌, ◌/◌, ◌+◌, ltb, refl,
}
use xmorph.Base.Bytes.{Bytes, codes, equal, is_empty, is_space, has_prefix, cut_prefix}
use xmorph.Base.Int.{pos}
use xmorph.Base.Result.{ok, err}
use xmorph.Config.Types.{Config, new}
use xmorph.Pivot.Mounts.{Kernel, prepare}
use xmorph.Pivot.Mounts.Visible.{visible, essentials_seen, prepare-visible}
use xmorph.Pivot.Cleanup.{unmount_under, failures}
use xmorph.Pivot.Cleanup.Deepest.{LongestFirst, count, unmount_under-LongestFirst}
use xmorph.Log.{
  LogStep, register_sink, change_level, derive_group, log, take_steps, take_step, new_handler,
}
use xmorph.Log.Journal.{journal_steps, new_journal, published}
use xmorph.Log.Journal.Published.{take_steps-published}
use xmorph.Postpivot.ResolvConf.{
  Disk, ensure_resolv_conf, read_nameservers, has_usable, all_loopback, chosen_servers,
}
use xmorph.Postpivot.ResolvConf.Usable.{ensure_resolv_conf-read_nameservers}
use xmorph.Cli.Build.{Workshop, run_build}
use xmorph.Tailscale.{
  hostname_from_args, tailscale_hostname, first_hostname, given_hostname, split_args, split_from,
}
use xmorph.Base.Bytes.Unicode.{plain_spaces, plain_spaces_from, unicode_fields}
use xmorph.Base.Bytes.Lines.{fields, open_fields}
use xmorph.Tests.Addresses.{net, net-shown, net-fallback}
use xmorph.Tailscale.Hostname.{tailscale_hostname-hostname_from_args}
use xmorph.Initsys.{
  Bus, systemd, is_systemd, poll_period, services_timeout, wait_for_services_to_stop,
}
use xmorph.Initsys.Waits.{time, is_last, none_last, enough, wait_for_services_to_stop_ends}

abbrev root : Bytes
root = codes "/new"

-- Everything works, and the new root is no mount point.
abbrev kernel : Kernel
kernel = record { works = λ c. true; exists = λ p. true; device = λ p. some 1 }

kernel_prepares : (prepare kernel root false true).1 ≡ ok tt
unfolding prepare equal
kernel_prepares = refl

prepare-visible_example :
    visible kernel root (prepare kernel root false true).0 [] ≡ essentials_seen kernel root
prepare-visible_example = prepare-visible kernel root false true kernel_prepares

abbrev mounts : List Bytes
mounts = codes "/" ∷ codes "/old" ∷ codes "/old/sys/fs" ∷ codes "/old/sys" ∷ []

-- The deepest is busy.
abbrev unmounts : Bytes → Bool
unmounts p = not (equal p (codes "/old/sys/fs"))

unmount_under_runs :
    unmount_under (codes "/old") unmounts (some mounts)
    ≡ some (codes "/old/sys/fs" ∷ codes "/old/sys" ∷ codes "/old" ∷ [], codes "/old/sys/fs" ∷ [])
unfolding unmount_under equal has_prefix cut_prefix
unmount_under_runs = refl

unmount_under-LongestFirst_example :
    (order : List Bytes) × (unmount_under (codes "/old") unmounts (some mounts)
      ≡ some (order, failures unmounts order))
    × LongestFirst order
    × ((p : Bytes) → count p order ≡ (if has_prefix (codes "/old") p then count p mounts else 0))
unmount_under-LongestFirst_example = unmount_under-LongestFirst (codes "/old") unmounts mounts

-- A clone logs after a sink is registered on the root.
abbrev steps : List (ℕ × LogStep)
steps =
    (0, derive_group (codes "oci"))
    ∷ (0, register_sink true)
    ∷ (
      1,
      log (record { at_level = pos 4; message = codes "m"; attrs = (codes "k", codes "v") ∷ [] }),
    )
    ∷ (0, change_level (pos 8))
    ∷ (0, log (record { at_level = pos 4; message = codes "quiet"; attrs = [] }))
    ∷ []

steps_run : (take_steps steps (new_handler (pos 0) true)).streams.buf ≡ codes "[WARN] [oci] m k=v\n"
unfolding take_steps take_step
steps_run = refl

take_steps-published_example :
    take_steps steps (new_handler (pos 0) true)
    ≡ published (journal_steps steps (new_journal (pos 0) true))
take_steps-published_example = take_steps-published (pos 0) true steps

abbrev stub : Bytes
stub = codes "nameserver 127.0.0.53\nnameserver 10.0.0.1\n"

abbrev disk : Disk
disk = record { makes_dir = true; writes = true }

abbrev written : Option Bytes
written = (ensure_resolv_conf net disk none (some stub)).0

stub-written : ensure_resolv_conf net disk none (some stub) ≡ (written, ok tt)
unfolding ensure_resolv_conf read_nameservers
stub-written = refl

ensure_resolv_conf-read_nameservers_example :
    (read_nameservers net written ≡ (
      if has_usable net (read_nameservers net none)
      then read_nameservers net none
      else chosen_servers net (some stub)))
    × (all_loopback net (read_nameservers net written) ≡ false)
    × ((later : Disk) (other : Option Bytes)
        → ensure_resolv_conf net later written other ≡ (written, ok tt))
ensure_resolv_conf-read_nameservers_example =
    ensure_resolv_conf-read_nameservers net net-shown net-fallback disk none (some stub) written
      stub-written

abbrev named : Config
named = record new { tailscale_args = codes "--ssh --hostname=box" }

named_blank : any xmorph.Tailscale.Hostname.is_other_space named.tailscale_args ≡ false
unfolding is_space
named_blank = refl

named_plain : plain_spaces named.tailscale_args ≡ named.tailscale_args
unfolding plain_spaces plain_spaces_from
named_plain = refl

tailscale_hostname-hostname_from_args_example :
    equal (hostname_from_args named.tailscale_args) (tailscale_hostname none named)
    ≡ not (is_empty (hostname_from_args named.tailscale_args))
tailscale_hostname-hostname_from_args_example =
    tailscale_hostname-hostname_from_args none named named_blank named_plain

-- A no-break space is one of strings.Fields and none of splitArgs: the two names differ.
abbrev no_break : Config
no_break = record new { tailscale_args = codes "--hostname=a" ++ 0xc2 ∷ 0xa0 ∷ codes "b" }

no_break_names :
    (hostname_from_args no_break.tailscale_args ≡ codes "a")
    × (tailscale_hostname none no_break ≡ codes "a" ++ 0xc2 ∷ 0xa0 ∷ codes "b")
unfolding hostname_from_args tailscale_hostname unicode_fields plain_spaces plain_spaces_from fields
    open_fields first_hostname given_hostname split_args split_from is_space cut_prefix
no_break_names = (refl, refl)

-- One job that never ends, and polls that take a millisecond.
abbrev stuck : Bus
stuck = record {
  connects = true;
  starts_unit = true;
  starts_scope = true;
  job_count = λ i. some 1;
  took = λ i. 1_000_000;
}

wait_for_services_to_stop_ends_example :
    (n : ℕ) × (wait_for_services_to_stop (enough stuck 1_000_000_000) systemd stuck 1_000_000_000
      ≡ some (
          if is_systemd systemd
            && stuck.connects
            && not (ltb (time stuck 1_000_000_000 n) 1_000_000_000)
          then err services_timeout
          else ok tt))
    × (is_last stuck 1_000_000_000 n ≡ true)
    × (none_last stuck 1_000_000_000 n 0 ≡ true)
    × (n ≤ 1_000_000_000 / poll_period + 1)
wait_for_services_to_stop_ends_example = wait_for_services_to_stop_ends stuck 1_000_000_000 systemd

-- Everything works and the cache is empty.
abbrev workshop : Workshop
workshop = record { works = λ w. true; exists = λ p. false; sha256_hex = λ p. codes "00" }

abbrev packed : Config
packed = record new { output = codes "/out"; rootfs_output = codes "/out.tgz" }

packed_builds : (run_build workshop packed).1 ≡ ok tt
unfolding run_build
packed_builds = refl
