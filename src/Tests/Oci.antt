-- ===== src/Tests/Oci.antt =====
-- Runs of the extraction of layers, on a disk that logs each path that a call changes.
use xmorph.Base.{Bool, true, some, List, [], ◌∷◌, if◌then◌else◌, ◌≡◌, refl, ◌⊎◌, inl, inr, All}
use xmorph.Base.Bytes.{Bytes, codes, equal, cut_last, has_prefix, trim_prefix, cut_prefix}
use xmorph.Base.Bytes.Lines.{split, join_with}
use xmorph.Base.Result.{ok}
use xmorph.Path.{clean, clean_parts, resolve_parts, is_trivial, go_up, join}
use xmorph.Path.Names.{path_of}
use xmorph.Oci.SecureJoin.{Entry, absent, symlink, secure_join, resolve, step}
use xmorph.Oci.SecureJoin.Lexical.{secure_join-resolve_parts}
use xmorph.Oci.SecureJoin.Contained.{Beneath, secure_join-Beneath}
use xmorph.Oci.Disk.{Header, Stream, eof, next, missing, Disk, reg_flag}
use xmorph.Oci.Extract.{
  extract_image, after, bind, ensure_dir, try, extract_layers, extract_tar, extract_entry,
  place_entry, secure, entry_name, escapes,
}
use xmorph.Oci.Extract.Keeps.{Inner, Target, Keeper}
use xmorph.Oci.Extract.Confined.{extract_image-Keeps}

abbrev root : Bytes
root = codes "/run/xmorph/rootfs"

-- A merged /usr, and a link that climbs.
abbrev links : Bytes → Entry
links path =
    if equal path (codes "/run/xmorph/rootfs/bin")
    then symlink (some (codes "usr/bin"))
    else if equal path (codes "/run/xmorph/rootfs/evil")
    then symlink (some (codes "/../../etc"))
    else absent

secure_join_link :
    secure_join links root (codes "bin/sh") ≡ ok (codes "/run/xmorph/rootfs/usr/bin/sh")
unfolding secure_join split step is_trivial equal join
secure_join_link = refl

secure_join_evil :
    secure_join links root (codes "evil/shadow") ≡ ok (codes "/run/xmorph/rootfs/etc/shadow")
unfolding secure_join split step is_trivial equal join
secure_join_evil = refl

secure_join-Beneath_example :
    (comps : List Bytes) × (codes "/run/xmorph/rootfs/usr/bin/sh" ≡ join root (path_of comps))
    × Beneath links root comps
secure_join-Beneath_example =
    secure_join-Beneath links root (codes "bin/sh") (codes "/run/xmorph/rootfs/usr/bin/sh")
      secure_join_link

abbrev log : Bytes → List Bytes → List Bytes × Bool
log p s = (p ∷ s, true)

abbrev log_disk : Disk
log_disk = record {
  State = List Bytes;
  lstat = λ s. links;
  read_dir = λ s dir. missing;
  mkdir_all = log;
  remove_all = log;
  create_excl = log;
  copy = λ p c. log p;
  close = log;
  chmod = λ p m. log p;
  symlink = λ d p. log p;
  link = λ q p. log p;
  make_device = λ p h. log p;
}

abbrev Logged : List Bytes → Type 0
Logged = All (λ p. (p ≡ root) ⊎ (Inner root p ⊎ Target root p))

abbrev log_keeper : Keeper log_disk root Logged
log_keeper = record {
  names = λ s dir ns e. cc;
  make_root = λ s i. (inl refl, i);
  make_parent = λ p s t i. (inr (inl t), i);
  make_dir = λ p s t i. (inr (inr t), i);
  removal = λ p s t i. (inr (inr t), i);
  creation = λ p s t i. (inr (inr t), i);
  copying = λ p c s t i. (inr (inr t), i);
  closing = λ p s t i. (inr (inr t), i);
  chmodding = λ p m s t i. (inr (inr t), i);
  symlinking = λ d p s t i. (inr (inr t), i);
  linking = λ q p s r t i. (inr (inr t), i);
  device = λ p h s t i. (inr (inr t), i);
}

abbrev entry : Bytes → Header
entry name = record {
  name = name;
  typeflag = reg_flag;
  linkname = [];
  mode = 420;
  content = codes "text";
}

abbrev layer : Stream
layer =
    next (entry (codes "./etc/motd"))
      (next (entry (codes "bin/.wh.sh")) (next (entry (codes ".wh...")) eof))

extract_image-Keeps_example : Logged (extract_image log_disk root (some (some layer ∷ [])) []).0
extract_image-Keeps_example =
    extract_image-Keeps log_disk root Logged log_keeper (some (some layer ∷ [])) [] tt

-- The whiteout of ".." removes the directory that the root stands in.
whiteout_climbs :
    extract_image log_disk root (some (some (next (entry (codes ".wh...")) eof) ∷ [])) []
    ≡ (codes "/run/xmorph" ∷ root ∷ [], ok tt)
unfolding extract_image after bind ensure_dir try extract_layers extract_tar extract_entry
    place_entry secure entry_name escapes secure_join resolve step clean clean_parts join
    resolve_parts is_trivial split join_with equal cut_last trim_prefix has_prefix cut_prefix
whiteout_climbs = refl

secure_join-resolve_parts_example :
    secure_join (λ path. absent) root (codes "../a/./../b")
    ≡ ok (join root (path_of (resolve_parts true [] (split b'/' (codes "../a/./../b")))))
secure_join-resolve_parts_example =
    secure_join-resolve_parts (λ path. absent) root (λ path. refl) (codes "../a/./../b")

-- What climbs stays at the root.
resolve_parts_climbing : resolve_parts true [] (split b'/' (codes "../a/./../b")) ≡ codes "b" ∷ []
unfolding resolve_parts split is_trivial equal go_up
resolve_parts_climbing = refl
