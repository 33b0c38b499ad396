-- ===== src/Lib.antt =====
-- xmorph replaces the root file system of a running machine by one that it builds from container
-- images: a command reads flags, builds a root file system in a tmpfs, stages a supervisor and its
-- configuration in it, stops what runs, pivots the root and hands over to the supervisor.
--
-- The files, each with the code that it is about:
-- - Base and its children: byte strings with the functions of Go's `strings` and `strconv` that the
--   program calls, lists measured by native numbers, results, signed integers, in Base.Trace programs
--   as the list of their calls with a result, and in Base.Polling the loop that polls up to a deadline. Path: `path/filepath`.
-- - Config.Types, .ImageRef, .Layers, .Size, .Validate, .Flags, .Binding: internal/config. A Go
--   slice or pointer that can be nil is an Option, LayerKind with its one used field is `Layer`.
--   Config.Flags is `Normalize`, which gets what pflag's Changed says; Config.Binding registers
--   the flags and says what each value does.
-- - Sysmem: internal/sysmem/meminfo.go. Sizes are natural numbers below 2 ^ 64, with the wrap-around
--   written out where the code multiplies.
-- - Oci.Layout: internal/oci/load.go and layout.go, over the packages of go-containerregistry as one
--   record; Oci.Layout.Reload states what the code relies on of them.
-- - Oci.ImageConfig, .Source, .SecureJoin, .Disk, .Extract: internal/oci/config.go, source.go and
--   extract.go. `secureJoin` recurses on the links that it may still follow, 255 as in the code, and
--   within that on the parts of the path, so it needs no fuel. `extractTar` and what it calls are
--   functions of the disk's state, over a record of the calls of the operating system.
-- - Rootfs.Builder, .Cache, .Copy: internal/rootfs/builder.go, cache.go, clean.go and copy.go, and the
--   packing of a directory and the copying of a layout in internal/cli/build_compose.go. The archive
--   that is packed goes to Cli.Build.Compose, with the configuration that Rootfs.Builder merged.
-- - Process.Essential, .Scanner, .Terminator: internal/process/essential.go, scanner.go and
--   terminator.go. Process ids are signed, as Go's int is. `gracefulPolling` takes its polls on fuel,
--   one for each tenth of a second of the timeout and two more, which is proved to be enough.
-- - Pivot.Mounts, .Cleanup: internal/pivot, as sequences of mounts and unmounts.
-- - Initsys: internal/initsys. The wait for systemd takes its polls on fuel, one for each half second
--   of the timeout and two more, which is proved to be enough.
-- - Postpivot.InitConfig, .Run, .Supervise: internal/postpivot/configwrite.go, run.go and
--   supervise.go. Postpivot.ResolvConf: resolvconf.go, where a file is its text.
--   Postpivot.Devices: devices.go, firewall_linux.go and reboot_linux.go.
-- - Postpivot.Watchdog: watchdog_linux.go. Watchdog.Petting is the goroutine and `Close` as a state
--   machine whose turns come in any order.
-- - Postpivot.Sshd: sshd_linux.go up to the accept loops; Sshd.Accept: the accept loops as a step
--   relation, and a connection; Sshd.Session: the requests of one session.
-- - Tailscale: internal/helpers/tsargs.go, internal/postpivot/hostname.go and internal/tsnetauth.
-- - Log: internal/log/log.go, with a list of operations on numbered handlers; Log.Journal is what
--   they implement.
-- - Cli.Entrypoint, .Login: the helpers of internal/cli/pivot.go that choose the entrypoint and the
--   credentials. Cli.Host: the answers of all that `runPivot` calls. Cli.Run: its effects, its
--   failures and the monad that lists the effects up to a return or an exec; `deferring` is Go's
--   defer. Cli.Pivot: `runPivot` and `runContain` stage by stage in the order of the source.
--   Cli.DryRun: dryrun.go, whose lines are data. Cli.Build: build.go; Cli.Build.Compose:
--   composeImage of build_compose.go.
--   Cli.Main: cmd/xmorph/main.go, internal/cli/root.go and idle.go. Cli.Pivot.Handover follows a
--   pivot from the command into the supervisor that it executes; Cli.Pivot.HostMounts follows the
--   tmpfs in the mounts of the host.
-- - Passphrase: internal/passphrase.
-- - Tests: concrete data and runs.
--
-- The pivot command uses Config for its input, Sysmem and Config.Size for the tmpfs, Cli.Entrypoint
-- with Oci.ImageConfig for what to run, Postpivot.InitConfig for what the supervisor reads. The
-- layers of the configuration go to Rootfs.Builder, which uses Oci.Source and takes the extraction of
-- an image or an archive, which Oci.Extract models, as a parameter.
--
-- Tailscale and Cli.DryRun read the configuration too, Cli.Build uses Rootfs.Cache; Postpivot.Sshd
-- starts from the section that Cli.Entrypoint stages, with a phrase of Passphrase where no credentials
-- are given.
--
-- All recursion is structural, on lists, on streams, on the number of links left, or on the fuel of the
-- waits of Base.Polling; other loops over time (the supervisor's wait, the requests of a session) take
-- what happens as a list, and the accept loops are a relation between states.
--
-- Not modelled: log messages and error texts, but for the handler of the log itself; pflag, cobra,
-- go-containerregistry, tsnet, D-Bus and the SSH library, which the code only calls; the copying
-- between a channel and its command; the text of a dry run, and the banner with the password. White
-- space beyond ASCII is modelled where the arguments of Tailscale are split (Base.Bytes.Unicode);
-- elsewhere strings.Fields and strings.TrimSpace are those of texts whose white space is ASCII.
-- Signals that end the supervisor are left out. The numbers that ParseSize reads as floating point are
-- a parameter, and so are the tar reader, net.ParseIP and ssh.ParseAuthorizedKey.
-- `Host` in Cli.Host stands for the mounts, the init system, the resolver and the watchdog by whether
-- they succeed; what they do then is in the modules named above, and Cli.Pivot.Machine takes these
-- answers from them.
pub mod Base
pub mod Config
pub mod Process
pub mod Path
pub mod Sysmem
pub mod Oci
pub mod Rootfs
pub mod Log
pub mod Passphrase
pub mod Initsys
pub mod Tailscale
pub mod Pivot
pub mod Postpivot
pub mod Cli
pub mod Tests
