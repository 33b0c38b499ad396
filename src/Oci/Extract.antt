-- ===== src/Oci/Extract.antt =====
-- internal/oci/extract.go: `ExtractImage`, `ExtractTarball`, `extractTar` and their helpers, over a
-- disk whose calls are parameters, with the state of the disk passed from call to call.
pub mod Keeps
pub mod Confined
use xmorph.Base.{
  ℕ, Bool, true, false, Option, none, some, List, [], ◌∷◌, ◌||◌, if◌then◌else◌, ◌+◌, ◌*◌, ◌/◌, ◌%◌,
  ◌^◌, ◌==◌, ◌&&◌, not,
}
use xmorph.Base.Bytes.{Bytes, codes, equal, is_empty, has_prefix, trim_prefix, cut_last}
use xmorph.Base.Result.{Result, ok, err}
use xmorph.Path.{dot, dot_dot, clean, join}
use xmorph.Oci.Disk.{
  TypeFlag, Header, Stream, Listing, Disk, ExtractError, dir_flag, reg_flag, symlink_flag,
  link_flag, device_flag, pax_flag, other_flag, eof, broken, next, missing, unlisted, listed,
  broken_header, escapes_target, unresolved, opaque_failed, whiteout_failed, mkdir_failed,
  create_failed, write_failed, close_failed, chmod_failed, symlink_failed, unresolved_link,
  link_failed, no_layers, no_layer, open_failed, seek_failed, gzip_failed,
}
use xmorph.Oci.SecureJoin.{Entry, JoinError, secure_join}

abbrev pub opaque_marker : Bytes
opaque_marker = codes ".wh..wh..opq"

abbrev pub whiteout_prefix : Bytes
whiteout_prefix = codes ".wh."

-- strings.Contains(s, t) for a t that is not empty
abbrev pub contains_text : Bytes → Bytes → Bool
contains_text t [] = false
contains_text t (c ∷ s) = has_prefix t (c ∷ s) || contains_text t s

-- The name of an entry without a leading "/" and "./".
unfoldable pub entry_name : Bytes → Bytes
entry_name name = trim_prefix (codes "./") (trim_prefix (codes "/") name)

unfoldable pub escapes : Bytes → Bool
escapes name =
    (equal name dot_dot || has_prefix (codes "../") name) || contains_text (codes "/../") name

-- filepath.Split, with the slash behind the directory taken off
abbrev pub split_entry : Bytes → Bytes × Bytes
split_entry name = elim (cut_last b'/' name) [ none ↦ ([], name) | some split ↦ split ]

-- The permission bits, and setuid, setgid and sticky.
abbrev pub permissions : ℕ → ℕ
permissions mode =
    mode % 512
    + (mode / 2 ^ 23 % 2 * 2 ^ 23 + (mode / 2 ^ 22 % 2 * 2 ^ 22 + mode / 2 ^ 20 % 2 * 2 ^ 20))

-- fmt.Errorf around the error of another function
abbrev pub relabel {ℓ} : {A : Type ℓ} → ExtractError → Result JoinError A → Result ExtractError A
relabel e (ok a) = ok a
relabel e (err _) = err e

-- Two bytes tell a gzip file.
abbrev is_gzip : Bytes → Bool
is_gzip [] = false
is_gzip (a ∷ []) = false
is_gzip (a ∷ b ∷ rest) = a == 31 && b == 139

module _ (disk : Disk) where
  abbrev pub Io {ℓ} : Type ℓ → Type ℓ
  Io A = disk.State → disk.State × Result ExtractError A

  abbrev pub proceed {ℓ κ} :
      {A : Type ℓ} {B : Type κ}
      → disk.State × Result ExtractError A
      → (A → Io B)
      → disk.State × Result ExtractError B
  proceed (s, ok a) f = f a s
  proceed (s, err e) f = (s, err e)

  unfoldable pub bind {ℓ κ} : {A : Type ℓ} {B : Type κ} → Io A → (A → Io B) → Io B
  bind m f s = proceed (m s) f

  unfoldable pub after {ℓ} : {B : Type ℓ} → Io (Unit {0}) → Io B → Io B
  after m k = bind m (λ u. k)

  abbrev pub done : Io (Unit {0})
  done s = (s, ok tt)

  abbrev pub abort {ℓ} : {A : Type ℓ} → ExtractError → Io A
  abort e s = (s, err e)

  abbrev pub judge : ExtractError → disk.State × Bool → disk.State × Result ExtractError (Unit {0})
  judge e (s, true) = (s, ok tt)
  judge e (s, false) = (s, err e)

  -- if err := call(); err != nil { return e }
  unfoldable pub try : (disk.State → disk.State × Bool) → ExtractError → Io (Unit {0})
  try call e s = judge e (call s)

  -- _ = call()
  unfoldable pub ignoring : (disk.State → disk.State × Bool) → Io (Unit {0})
  ignoring call s = ((call s).0, ok tt)

  module _ (root : Bytes) where
    unfoldable pub secure : Bytes → ExtractError → Io Bytes
    secure path e s = (s, relabel e (secure_join (disk.lstat s) root path))

    unfoldable pub remove_children : Bytes → List Bytes → Io (Unit {0})
    unfolding after try
    remove_children dir [] = done
    remove_children dir (name ∷ names) =
        after (try (disk.remove_all (join dir name)) opaque_failed) (remove_children dir names)

    -- The missing directory is no error to the caller.
    unfoldable pub clear_dir_contents : Bytes → Io (Unit {0})
    clear_dir_contents dir s = elim (disk.read_dir s dir) [
      | missing ↦ (s, ok tt)
      | unlisted ↦ (s, err opaque_failed)
      | listed names ↦ remove_children dir names s
    ]

    unfoldable pub ensure_dir : Bytes → Io (Unit {0})
    ensure_dir dir = if is_empty dir then done else try (disk.mkdir_all dir) mkdir_failed

    unfoldable pub chmod_entry : Bytes → Header → Io (Unit {0})
    chmod_entry target h = try (disk.chmod target (permissions h.mode)) chmod_failed

    unfoldable pub write_file : Bytes → Header → Io (Unit {0})
    write_file target h = after (ignoring (disk.remove_all target)) (
        after (try (disk.create_excl target) create_failed) (
          after (try (disk.copy target h.content) write_failed)
            (after (try (disk.close target) close_failed) (chmod_entry target h))))

    unfoldable pub write_link : Bytes → Header → Io (Unit {0})
    write_link target h = after (ignoring (disk.remove_all target)) (
        bind (secure h.linkname unresolved_link)
          (λ source. try (disk.link source target) link_failed))

    -- The switch over the type of the entry.
    unfoldable pub write_entry : Bytes → Header → Io (Unit {0})
    write_entry target h = elim h.typeflag [
      | dir_flag ↦ after (try (disk.mkdir_all target) mkdir_failed) (chmod_entry target h)
      | reg_flag ↦ write_file target h
      | symlink_flag ↦
          after (ignoring (disk.remove_all target))
            (try (disk.symlink h.linkname target) symlink_failed)
      | link_flag ↦ write_link target h
      | device_flag ↦ ignoring (disk.make_device target h)
      | pax_flag ↦ done
      | other_flag ↦ done
    ]

    -- With the parent resolved: a whiteout, or something to write.
    unfoldable pub place_entry : Header → Bytes → Bytes → Io (Unit {0})
    place_entry h base parent =
        if equal base opaque_marker
        then clear_dir_contents parent
        else if has_prefix whiteout_prefix base
        then try (disk.remove_all (join parent (trim_prefix whiteout_prefix base))) whiteout_failed
        else after (ensure_dir parent) (write_entry (join parent base) h)

    unfoldable pub extract_entry : Header → Io (Unit {0})
    extract_entry h =
        let cleaned = clean h.name in
        let name = entry_name cleaned in
        if equal cleaned dot || equal cleaned (codes "/")
        then done
        else if escapes name
        then abort escapes_target
        else bind (secure (split_entry name).0 unresolved) (place_entry h (split_entry name).1)

    unfoldable pub extract_tar : Stream → Io (Unit {0})
    extract_tar eof = done
    extract_tar broken = abort broken_header
    extract_tar (next h rest) = after (extract_entry h) (extract_tar rest)

    unfoldable pub extract_layers : List (Option Stream) → Io (Unit {0})
    extract_layers [] = done
    extract_layers (none ∷ layers) = abort no_layer
    extract_layers (some layer ∷ layers) = after (extract_tar layer) (extract_layers layers)

    -- The layers of the image, each uncompressed, or what failed of that.
    abbrev pub layers_or_abort : Option (List (Option Stream)) → Io (Unit {0})
    layers_or_abort none = abort no_layers
    layers_or_abort (some layers) = extract_layers layers

    unfoldable pub extract_image : Option (List (Option Stream)) → Io (Unit {0})
    extract_image layers = after (ensure_dir root) (layers_or_abort layers)

    -- With the file's bytes, if it could be opened, and what tar and gzip make of bytes.
    unfoldable pub extract_tarball :
        Option Bytes → Bool → (Bytes → Option Bytes) → (Bytes → Stream) → Io (Unit {0})
    extract_tarball file seeks gunzip tar = after (ensure_dir root) (elim file [
      | none ↦ abort open_failed
      | some bytes ↦
          if not seeks
          then abort seek_failed
          else if is_gzip bytes
          then (elim (gunzip bytes) [
            | none ↦ abort gzip_failed
            | some plain ↦ extract_tar (tar plain)
          ])
          else extract_tar (tar bytes)
    ])
