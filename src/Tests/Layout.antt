-- ===== src/Tests/Layout.antt =====
-- Layouts in memory: an image is its digest, and a store has the digests of each directory.
use xmorph.Base.{
  Bool, true, false, Option, none, some, List, [], ◌∷◌, ◌++◌, if◌then◌else◌, any, any-append, ◌≡◌,
  refl, ap, arith, Bool-cases, inl, inr,
}
use xmorph.Base.Bytes.{Bytes, codes, equal, equal_refl, equal_sound}
use xmorph.Base.Result.{ok}
use xmorph.Oci.Layout.{Packages, load_image, load_layout, first_image, write_layout}
use xmorph.Oci.Layout.Reload.{Appends, IsLayoutStore, OwnDigest, older_or, write_layout-load_image}
use xmorph.Oci.Source.{oci_layout}

abbrev Store : Type 0
Store = Bytes → Option (List Bytes)

abbrev put : Bytes → List Bytes → Store → Store
put dir ds s d = if equal d dir then some ds else s d

abbrev is_there : Option (List Bytes) → Bool
is_there none = false
is_there (some ds) = true

abbrev read_in : Option (List Bytes) → Bytes → Option Bytes
read_in none k = none
read_in (some ds) k = if any (λ d. equal k d) ds then some k else none

abbrev grow : Bytes → Bytes → Store → Option (List Bytes) → Store × Bool
grow dir img s none = (s, false)
grow dir img s (some ds) = (put dir (ds ++ img ∷ []) s, true)

abbrev in_memory : Packages
in_memory = record {
  Image = Bytes;
  Store = Store;
  Reference = Bytes;
  Index = List Bytes;
  parse_reference = λ ref. some ref;
  remote_image = λ ref. ok ref;
  image_from_path = λ s path. none;
  from_path = λ s dir. is_there (s dir);
  image_index = λ s dir. s dir;
  index_manifest = λ ds. some ds;
  image_at = λ s dir. read_in (s dir);
  write_empty = λ dir s. (put dir [] s, true);
  append_image = λ dir img s. grow dir img s (s dir);
  digest = λ img. some img;
}

abbrev flat : Option (List Bytes) → Option (List Bytes)
flat o = elim o [ none ↦ none | some ds ↦ some ds ]

put_same : (dir : Bytes) (ds : List Bytes) (s : Store) → put dir ds s dir ≡ some ds
put_same dir ds s = rw (equal_refl dir) refl

read_in-append :
    (ds : List Bytes) (img k : Bytes)
    → read_in (some (ds ++ img ∷ [])) k ≡ (if equal k img then some img else read_in (some ds) k)
read_in-append ds img k = elim (Bool-cases (equal k img)) [
  | inl e ↦ rw (any-append (λ d. equal k d) ds (img ∷ []), e, equal_sound k img e) (ground arith)
  | inr e ↦ rw (any-append (λ d. equal k d) ds (img ∷ []), e) (ground arith)
]

grow-Appends :
    (dir img : Bytes) (s : Store) (o : Option (List Bytes))
    → s dir ≡ o
    → (grow dir img s o).1 ≡ true
    → Appends in_memory dir img s (grow dir img s o).0
grow-Appends dir img s none e h = cc
grow-Appends dir img s (some ds) e h = record {
  listed = ds;
  name = img;
  is_digest = refl;
  opens = rw (put_same dir (ds ++ img ∷ []) s) refl;
  before = rw e refl;
  after = ap flat (put_same dir (ds ++ img ∷ []) s);
  reads = λ k. rw (put_same dir (ds ++ img ∷ []) s, e) (read_in-append ds img k);
}

in_memory-IsLayoutStore : IsLayoutStore in_memory
in_memory-IsLayoutStore = record {
  empties = λ dir s h. (rw (put_same dir [] s) refl, ap flat (put_same dir [] s));
  appends = λ dir img s h. grow-Appends dir img s (s dir) refl h;
}

-- A store with one layout, of one image.
abbrev one_image : Store
one_image d = if equal d (codes "out") then some (codes "sha256:1" ∷ []) else none

one_image-OwnDigest : OwnDigest in_memory one_image (codes "out") (codes "sha256:2")
unfolding equal
one_image-OwnDigest ds m = let lists : ds ≡ codes "sha256:1" ∷ [] = cc in rw lists (λ e. cc, tt)

-- The layout at "out" keeps giving its first image.
write_layout-load_image_example :
    (in_memory.digest (codes "sha256:2") ≡ some (codes "sha256:2"))
    × (load_image in_memory
          (write_layout in_memory (codes "out") (codes "sha256:2") one_image).0
          (codes "out")
          oci_layout
        ≡ ok
            (older_or (load_image in_memory one_image (codes "out") oci_layout) (codes "sha256:2")))
unfolding write_layout equal
write_layout-load_image_example =
    write_layout-load_image in_memory (codes "out") (codes "sha256:2") one_image (codes "sha256:2")
      in_memory-IsLayoutStore one_image-OwnDigest refl

-- So what is loaded after a second build to the same directory is what the first one made.
write_layout_stale :
    load_image in_memory
      (write_layout in_memory (codes "out") (codes "sha256:2") one_image).0
      (codes "out")
      oci_layout
    ≡ ok (codes "sha256:1")
unfolding load_image load_layout first_image write_layout equal
write_layout_stale = refl
