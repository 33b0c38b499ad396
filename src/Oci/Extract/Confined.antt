-- ===== src/Oci/Extract/Confined.antt =====
-- Which paths the extraction hands to the calls that change the disk.
use xmorph.Base.{false, Option, none, some, List, [], ◌∷◌, ◌||◌, ◌≡◌, refl, All}
use xmorph.Base.Bytes.{Bytes, codes, equal, is_empty, has_prefix}
use xmorph.Path.{dot, clean, join}
use xmorph.Path.Names.{has_slash}
use xmorph.Oci.Disk.{
  TypeFlag, unresolved_link, unresolved, escapes_target, Header, Stream, eof, broken, next, Listing,
  missing, unlisted, listed, Disk, dir_flag, reg_flag, symlink_flag, link_flag, device_flag,
  pax_flag, other_flag,
}
use xmorph.Oci.Extract.{
  opaque_marker, whiteout_prefix, split_entry, entry_name, escapes, bind, done, abort, ignoring,
  secure, remove_children, clear_dir_contents, ensure_dir, chmod_entry, write_file, write_link,
  write_entry, place_entry, extract_entry, extract_tar, extract_layers, layers_or_abort,
  extract_image,
}
use xmorph.Oci.Extract.Keeps.{
  Inner, Target, Keeper, Keeps, Keeps-after, Keeps-try, Keeps-if, Keeps-secure,
  trim_prefix_no_slash, split_entry_no_slash,
}

module _ {ℓ} (disk : Disk) (root : Bytes) (Inv : disk.State → Type ℓ)
    (k : Keeper disk root Inv) where
  Keeps-remove_children :
      (dir : Bytes) (names : List Bytes)
      → Inner root dir
      → All (λ n. has_slash n ≡ false) names
      → Keeps disk root Inv (remove_children disk root dir names)
  unfolding remove_children
  Keeps-remove_children dir [] d h = λ s i. i
  Keeps-remove_children dir (n ∷ names) d (h, hs) =
      Keeps-after disk root Inv _ _
        (Keeps-try disk root Inv _ _ (λ s. k.removal (join dir n) s (dir, n, d, h, refl)))
        (Keeps-remove_children dir names d hs)

  Keeps-listing :
      (dir : Bytes) (s : disk.State) (l : Listing)
      → Inner root dir
      → disk.read_dir s dir ≡ l
      → Inv s
      → Inv (clear_dir_contents disk root dir s).0
  unfolding clear_dir_contents
  Keeps-listing dir s missing d e i = rw (clear_dir_contents, e) i
  Keeps-listing dir s unlisted d e i = rw (clear_dir_contents, e) i
  Keeps-listing dir s (listed ns) d e i =
      rw (clear_dir_contents, e) (Keeps-remove_children dir ns d (k.names s dir ns e) s i)

  Keeps-write_entry :
      (target : Bytes) (h : Header) (flag : TypeFlag)
      → Target root target
      → h.typeflag ≡ flag
      → Keeps disk root Inv (write_entry disk root target h)
  unfolding write_entry write_file write_link ensure_dir chmod_entry ignoring
  Keeps-write_entry target h dir_flag t e =
      rw (write_entry, e)
        (Keeps-after disk root Inv _ _ (Keeps-try disk root Inv _ _ (λ s. k.make_dir target s t))
          (Keeps-try disk root Inv _ _ (λ s. k.chmodding target _ s t)))
  Keeps-write_entry target h reg_flag t e =
      rw (write_entry, e)
        (Keeps-after disk root Inv _ _ (λ s. k.removal target s t)
          (Keeps-after disk root Inv _ _ (Keeps-try disk root Inv _ _ (λ s. k.creation target s t))
            (Keeps-after disk root Inv _ _
              (Keeps-try disk root Inv _ _ (λ s. k.copying target _ s t))
              (Keeps-after disk root Inv _ _
                (Keeps-try disk root Inv _ _ (λ s. k.closing target s t))
                (Keeps-try disk root Inv _ _ (λ s. k.chmodding target _ s t))))))
  Keeps-write_entry target h symlink_flag t e =
      rw (write_entry, e)
        (Keeps-after disk root Inv _ _ (λ s. k.removal target s t)
          (Keeps-try disk root Inv _ _ (λ s. k.symlinking _ target s t)))
  Keeps-write_entry target h link_flag t e =
      rw (write_entry, e)
        (Keeps-after disk root Inv _ _ (λ s. k.removal target s t)
          (Keeps-secure disk root Inv h.linkname unresolved_link _
            (λ source q. Keeps-try disk root Inv _ _ (λ s. k.linking source target s q t))))
  Keeps-write_entry target h device_flag t e = rw (write_entry, e) (λ s. k.device target h s t)
  Keeps-write_entry target h pax_flag t e = rw (write_entry, e) (λ s i. i)
  Keeps-write_entry target h other_flag t e = rw (write_entry, e) (λ s i. i)

  Keeps-ensure_dir :
      (dir : Bytes)
      → ((s : disk.State) → Inv s → Inv (disk.mkdir_all dir s).0)
      → Keeps disk root Inv (ensure_dir disk root dir)
  unfolding ensure_dir
  Keeps-ensure_dir dir h =
      Keeps-if disk root Inv (is_empty dir) _ _ (λ s i. i) (Keeps-try disk root Inv _ _ h)

  Keeps-place_entry :
      (h : Header) (base parent : Bytes)
      → has_slash base ≡ false
      → Inner root parent
      → Keeps disk root Inv (place_entry disk root h base parent)
  unfolding place_entry
  Keeps-place_entry h base parent n d =
      Keeps-if disk root Inv (equal base opaque_marker) _ _
        (λ s. Keeps-listing parent s (disk.read_dir s parent) d refl)
        (Keeps-if disk root Inv (has_prefix whiteout_prefix base) _ _
          (Keeps-try disk root Inv _ _
            (λ s. k.removal _ s (parent, _, d, trim_prefix_no_slash whiteout_prefix base n, refl)))
          (Keeps-after disk root Inv _ _ (Keeps-ensure_dir parent (λ s. k.make_parent parent s d))
            (Keeps-write_entry _ h h.typeflag (parent, base, d, n, refl) refl)))

  Keeps-extract_entry : (h : Header) → Keeps disk root Inv (extract_entry disk root h)
  unfolding extract_entry
  Keeps-extract_entry h =
      let cleaned = clean h.name in
      let name = entry_name cleaned in
      let (dir, base) = split_entry name in
      let go : Keeps disk root Inv
          (bind disk (secure disk root dir unresolved) (place_entry disk root h base)) =
        Keeps-secure disk root Inv dir unresolved (place_entry disk root h base)
          (λ at d. Keeps-place_entry h base at (split_entry_no_slash name) d) in
      Keeps-if disk root Inv (equal cleaned dot || equal cleaned (codes "/")) (done disk) _
        (λ s i. i)
        (Keeps-if disk root Inv (escapes name) (abort disk escapes_target) _ (λ s i. i) go)

  Keeps-extract_tar : (tar : Stream) → Keeps disk root Inv (extract_tar disk root tar)
  unfolding extract_tar
  Keeps-extract_tar eof = λ s i. i
  Keeps-extract_tar broken = λ s i. i
  Keeps-extract_tar (next h rest) =
      Keeps-after disk root Inv _ _ (Keeps-extract_entry h) (Keeps-extract_tar rest)

  Keeps-extract_layers :
      (layers : List (Option Stream)) → Keeps disk root Inv (extract_layers disk root layers)
  unfolding extract_layers
  Keeps-extract_layers [] = λ s i. i
  Keeps-extract_layers (none ∷ layers) = λ s i. i
  Keeps-extract_layers (some layer ∷ layers) =
      Keeps-after disk root Inv _ _ (Keeps-extract_tar layer) (Keeps-extract_layers layers)

  Keeps-layers :
      (layers : Option (List (Option Stream)))
      → Keeps disk root Inv (layers_or_abort disk root layers)
  Keeps-layers none = λ s i. i
  Keeps-layers (some ls) = Keeps-extract_layers ls

  -- Whatever the layers hold and however their streams end, a property of the disk outlives the
  -- extraction of an image, successful or not, if each call keeps it at the paths that the
  -- extraction gives it: the root is made; parents that are made and sources of hard links are
  -- paths of names beneath the root; whatever else is made, written, changed, linked or removed is
  -- at such a path joined with one component without a slash.
  pub extract_image-Keeps :
      (layers : Option (List (Option Stream)))
      → Keeps disk root Inv (extract_image disk root layers)
  unfolding extract_image
  extract_image-Keeps layers =
      Keeps-after disk root Inv (ensure_dir disk root root) _ (Keeps-ensure_dir root k.make_root)
        (Keeps-layers layers)
