-- ===== src/Oci/Layout/Reload.antt =====
-- What a layout gives back after an image was written to it.
use xmorph.Base.{
  true, false, Option, none, some, List, [], ◌∷◌, ◌++◌, if◌then◌else◌, All, Bool-cases,
  Option-cases, inl, inr, ◌≡◌, refl, ◌∙◌, arith,
}
use xmorph.Base.Bytes.{Bytes, equal, equal_refl, equal_sound}
use xmorph.Base.Result.{Result, ok, err, err≢ok}
use xmorph.Oci.Layout.{
  Packages, init_failed, first_image, load_layout, load_image, append_to, write_layout,
}
use xmorph.Oci.Source.{oci_layout}

-- The digests that the index of a layout lists.
abbrev pub manifests : (p : Packages) → p.Store → Bytes → Option (List Bytes)
manifests p s dir = elim (p.image_index s dir) [ none ↦ none | some ii ↦ p.index_manifest ii ]

-- What an append that succeeds does: it adds the digest of the image at the end of the index, and
-- the image is then read by its digest, each other one as before.
pub record Appends (p : Packages) (dir : Bytes) (img : p.Image) (s t : p.Store) : Type 0 where
  pub listed : List Bytes
  pub name : Bytes
  pub is_digest : p.digest img ≡ some name
  pub opens : p.from_path t dir ≡ true
  pub before : manifests p s dir ≡ some listed
  pub after : manifests p t dir ≡ some (listed ++ name ∷ [])
  pub reads :
      (k : Bytes) → p.image_at t dir k ≡ (if equal k name then some img else p.image_at s dir k)

-- What the code relies on of the package layout: an empty layout that is written is there and lists
-- nothing, and an append is as above.
pub record IsLayoutStore (p : Packages) : Type 0 where
  pub empties :
      (dir : Bytes) (s : p.Store)
      → (p.write_empty dir s).1 ≡ true
      → (p.from_path (p.write_empty dir s).0 dir ≡ true)
        × (manifests p (p.write_empty dir s).0 dir ≡ some [])
  pub appends :
      (dir : Bytes) (img : p.Image) (s : p.Store)
      → (p.append_image dir img s).1 ≡ true
      → Appends p dir img s (p.append_image dir img s).0

-- Where the index lists the digest of the image, that is what is read there.
abbrev pub OwnDigest : (p : Packages) → p.Store → Bytes → p.Image → Type 0
OwnDigest p s dir img =
    (ds : List Bytes)
    → manifests p s dir ≡ some ds
    → All (λ k. p.digest img ≡ some k → p.image_at s dir k ≡ some img) ds

-- The image that the layout gave, if it gave one, and otherwise the new one.
abbrev pub older_or {ℓ} : {E : Type 0} {A : Type ℓ} → Result E A → A → A
older_or (err e) img = img
older_or (ok old) img = old

module _ (p : Packages) (s : p.Store) (dir : Bytes) where
  load_layout-manifests :
      (ds : List Bytes)
      → p.from_path s dir ≡ true
      → manifests p s dir ≡ some ds
      → load_layout p s dir ≡ first_image p s dir ds
  unfolding load_layout
  load_layout-manifests ds o m = ground arith

  load_layout_absent :
      p.from_path s dir ≡ false → (img : p.Image) → older_or (load_layout p s dir) img ≡ img
  unfolding load_layout
  load_layout_absent o img = ground arith

module _ (p : Packages) (dir : Bytes) (img : p.Image) (s t : p.Store) where
  first_image-append :
      (a : Appends p dir img s t) (ds : List Bytes)
      → All (λ k. p.digest img ≡ some k → p.image_at s dir k ≡ some img) ds
      → first_image p t dir (ds ++ a.name ∷ []) ≡ ok (older_or (first_image p s dir ds) img)
  unfolding first_image
  first_image-append a [] own = rw (a.reads a.name, equal_refl a.name) refl
  first_image-append a (k ∷ ds) (own, more) = elim (Bool-cases (equal k a.name)) [
    | inl e ↦
        let own_k = own (rw (equal_sound k a.name e) a.is_digest) in
        rw (first_image, a.reads k, e, own_k) refl
    | inr e ↦ elim (Option-cases (p.image_at s dir k)) [
      | inl n ↦ rw (first_image, a.reads k, e, n) (first_image-append a ds more)
      | inr (old, n) ↦ rw (first_image, a.reads k, e, n) refl
    ]
  ]

  load_layout-append :
      Appends p dir img s t
      → OwnDigest p s dir img
      → p.from_path s dir ≡ true
      → load_layout p t dir ≡ ok (older_or (load_layout p s dir) img)
  load_layout-append a own o =
      load_layout-manifests p t dir (a.listed ++ a.name ∷ []) a.opens a.after
      ∙ rw (load_layout-manifests p s dir a.listed o a.before)
          (first_image-append a a.listed (own a.listed a.before))

module _ (p : Packages) (dir : Bytes) (img : p.Image) (l : IsLayoutStore p) where
  append_to-load_layout :
      (s : p.Store) (h : Bytes)
      → OwnDigest p s dir img
      → p.from_path s dir ≡ true
      → (append_to p dir img s true).1 ≡ ok h
      → (p.digest img ≡ some h)
        × (load_layout p (append_to p dir img s true).0 dir
            ≡ ok (older_or (load_layout p s dir) img))
  append_to-load_layout s h own o e = elim (Bool-cases (p.append_image dir img s).1) [
    | inl b ↦
        let a = l.appends dir img s b in
        (ground (arith, a.is_digest), rw b (load_layout-append p dir img s _ a own o))
    | inr b ↦ ground (arith, b)
  ]

  write_layout_present :
      (s : p.Store)
      → p.from_path s dir ≡ true
      → write_layout p dir img s ≡ append_to p dir img s true
  unfolding write_layout
  write_layout_present s o = rw o refl

  write_layout_absent :
      (s : p.Store)
      → p.from_path s dir ≡ false
      → write_layout p dir img s
        ≡ append_to p dir img (p.write_empty dir s).0 (p.write_empty dir s).1
  unfolding write_layout
  write_layout_absent s o = rw o refl

  empty-OwnDigest : (s : p.Store) → manifests p s dir ≡ some [] → OwnDigest p s dir img
  empty-OwnDigest s lists [] m = tt
  empty-OwnDigest s lists (k ∷ ks) m = cc

  append_to_empty :
      (s : p.Store) (h : Bytes)
      → (p.from_path s dir ≡ true) × (manifests p s dir ≡ some [])
      → (append_to p dir img s true).1 ≡ ok h
      → (p.digest img ≡ some h) × (load_layout p (append_to p dir img s true).0 dir ≡ ok img)
  unfolding first_image
  append_to_empty s h (opens, lists) e =
      let (d, r) = append_to-load_layout s h (empty-OwnDigest s lists) opens e in
      (d, rw (load_layout-manifests p s dir [] opens lists) at r)

-- If WriteLayout succeeds, where the index of the directory, if there is one, lists the digest of
-- the image only for the image itself, then it returns that digest, and LoadImage of the directory
-- as a layout gives the image that it gave before; and if it gave none, the one that was written.
pub write_layout-load_image :
    (p : Packages) (dir : Bytes) (img : p.Image) (s : p.Store) (h : Bytes)
    → IsLayoutStore p
    → OwnDigest p s dir img
    → (write_layout p dir img s).1 ≡ ok h
    → (p.digest img ≡ some h)
      × (load_image p (write_layout p dir img s).0 dir oci_layout
          ≡ ok (older_or (load_image p s dir oci_layout) img))
unfolding load_image
write_layout-load_image p dir img s h l own e = elim (Bool-cases (p.from_path s dir)) [
  | inl o ↦
      let w = write_layout_present p dir img l s o in
      rw w (append_to-load_layout p dir img l s h own o (rw w at e))
  | inr o ↦
      let w = write_layout_absent p dir img l s o in
      elim (Bool-cases (p.write_empty dir s).1) [
        | inl b ↦
            rw (w, b, load_layout_absent p s dir o img)
              (append_to_empty p dir img l (p.write_empty dir s).0 h (l.empties dir s b)
                (rw (w, b) at e))
        | inr b ↦ absurd (err≢ok {e = init_failed} {a = h} (rw (w, b) at e))
      ]
]
