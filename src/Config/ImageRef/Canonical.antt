-- ===== src/Config/ImageRef/Canonical.antt =====
-- The normal form of an image reference is stable.
use xmorph.Base.{
  true, false, ◌∷◌, ◌++◌, arith, ◌≡◌, refl, ap, ◌∙◌, append_assoc, Option-cases, inl, inr,
}
use xmorph.Base.Bytes.{Bytes, codes, contains_byte, cut, cut_last}
use xmorph.Base.Bytes.Cut.{
  cut-append, cut-eq-none, cut-none, cut-some, cut_last-append, cut_last-some, contains_byte-append,
}
use xmorph.Config.ImageRef.{
  default_registry, strip_digest, split_tag, is_registry, split_registry, hub_repository,
  normalize_image_ref,
}

-- The parts of a reference in normal form.
pub record IsCanonical (registry repository tag : Bytes) : Type 0 where
  pub registry_no_slash : contains_byte b'/' registry ≡ false
  pub registry_no_at : contains_byte b'@' registry ≡ false
  pub registry_known : is_registry registry ≡ true
  pub repository_no_at : contains_byte b'@' repository ≡ false
  pub repository_hub : hub_repository registry repository ≡ repository
  pub tag_no_slash : contains_byte b'/' tag ≡ false
  pub tag_no_colon : contains_byte b':' tag ≡ false
  pub tag_no_at : contains_byte b'@' tag ≡ false

abbrev pub written : Bytes → Bytes → Bytes → Bytes
written registry repository tag = registry ++ (b'/' ∷ (repository ++ (b':' ∷ tag)))

strip_digest-no_at : (s : Bytes) → contains_byte b'@' (strip_digest s) ≡ false
unfolding strip_digest
strip_digest-no_at s = elim (Option-cases (cut b'@' s)) [
  | inl e ↦ rw (e, strip_digest) (cut-none b'@' s e)
  | inr (p, e) ↦ rw (e, strip_digest) ((cut-some b'@' s p.0 p.1 e).1)
]

strip_digest_fixed : (s : Bytes) → contains_byte b'@' s ≡ false → strip_digest s ≡ s
unfolding strip_digest
strip_digest_fixed s h = ground (arith, cut-eq-none b'@' s h)

split_tag-written :
    (a tag : Bytes)
    → contains_byte b':' tag ≡ false
    → contains_byte b'/' tag ≡ false
    → split_tag (a ++ (b':' ∷ tag)) ≡ (a, tag)
unfolding split_tag
split_tag-written a tag h k = ground (arith, cut_last-append b':' a tag h)

split_registry-written :
    (registry b : Bytes)
    → contains_byte b'/' registry ≡ false
    → is_registry registry ≡ true
    → split_registry (registry ++ (b'/' ∷ b)) ≡ (registry, b)
unfolding split_registry
split_registry-written registry b h k = ground (arith, cut-append b'/' registry b h)

written-no_at : (r p t : Bytes) → IsCanonical r p t → contains_byte b'@' (written r p t) ≡ false
written-no_at r p t c =
    rw (contains_byte-append b'@' r (b'/' ∷ (p ++ (b':' ∷ t))))
      (rw (contains_byte-append b'@' p (b':' ∷ t)) (ground arith))

written-tail : (r p t : Bytes) → written r p t ≡ (r ++ (b'/' ∷ p)) ++ (b':' ∷ t)
written-tail r p t = rw append_assoc

normalize-written :
    (r p t : Bytes) → IsCanonical r p t → normalize_image_ref (written r p t) ≡ written r p t
unfolding normalize_image_ref
normalize-written r p t c = rw (strip_digest_fixed (written r p t) (written-no_at r p t c)) (
    rw (ap split_tag (written-tail r p t) ∙ split_tag-written _ t c.tag_no_colon c.tag_no_slash)
      (rw (split_registry-written r p c.registry_no_slash c.registry_known) (rw c.repository_hub)))

split_tag_parts :
    (s : Bytes)
    → contains_byte b'@' s ≡ false
    → (contains_byte b'@' (split_tag s).0 ≡ false)
      × (contains_byte b'@' (split_tag s).1 ≡ false)
      × (contains_byte b'/' (split_tag s).1 ≡ false)
      × (contains_byte b':' (split_tag s).1 ≡ false)
unfolding split_tag
split_tag_parts s h = elim (Option-cases (cut_last b':' s)) [
  | inl e ↦ ground arith
  | inr (p, e) ↦
      let (q, r) = cut_last-some b':' s p.0 p.1 e in
      let at = rw q at h in ground (arith, contains_byte-append b'@' p.0 (b':' ∷ p.1))
]

is_registry-default : is_registry default_registry ≡ true
unfolding is_registry
is_registry-default = refl

split_registry_parts :
    (s : Bytes)
    → contains_byte b'@' s ≡ false
    → (contains_byte b'/' (split_registry s).0 ≡ false)
      × (contains_byte b'@' (split_registry s).0 ≡ false)
      × (is_registry (split_registry s).0 ≡ true)
      × (contains_byte b'@' (split_registry s).1 ≡ false)
unfolding split_registry
split_registry_parts s h = elim (Option-cases (cut b'/' s)) [
  | inl e ↦ ground (arith, is_registry-default)
  | inr (p, e) ↦
      let (q, r) = cut-some b'/' s p.0 p.1 e in
      let at = rw q at h in ground (arith, contains_byte-append b'@' p.0 (b'/' ∷ p.1))
]

hub_repository_idem : (r p : Bytes) → hub_repository r (hub_repository r p) ≡ hub_repository r p
unfolding hub_repository
hub_repository_idem r p = ground (arith, contains_byte-append b'/' (codes "library/") p)

hub_repository-no_at :
    (r p : Bytes) → contains_byte b'@' p ≡ false → contains_byte b'@' (hub_repository r p) ≡ false
unfolding hub_repository
hub_repository-no_at r p h = ground arith

abbrev pub tag_of : Bytes → Bytes
tag_of ref = (split_tag (strip_digest ref)).1

abbrev pub registry_of : Bytes → Bytes
registry_of ref = (split_registry (split_tag (strip_digest ref)).0).0

abbrev pub repository_of : Bytes → Bytes
repository_of ref =
    hub_repository (registry_of ref) (split_registry (split_tag (strip_digest ref)).0).1

IsCanonical-normalize :
    (ref : Bytes) → IsCanonical (registry_of ref) (repository_of ref) (tag_of ref)
IsCanonical-normalize ref =
    let (a, b, c, d) = split_tag_parts (strip_digest ref) (strip_digest-no_at ref) in
    let (e, f, g, h) = split_registry_parts (split_tag (strip_digest ref)).0 a in
    record {
      registry_no_slash = e;
      registry_no_at = f;
      registry_known = g;
      repository_no_at = hub_repository-no_at _ _ h;
      repository_hub = hub_repository_idem _ _;
      tag_no_slash = c;
      tag_no_colon = d;
      tag_no_at = b;
    }

written-parts :
    (ref : Bytes)
    → normalize_image_ref ref ≡ written (registry_of ref) (repository_of ref) (tag_of ref)
unfolding normalize_image_ref
written-parts ref = refl

pub normalize_image_ref_idem :
    (ref : Bytes) → normalize_image_ref (normalize_image_ref ref) ≡ normalize_image_ref ref
normalize_image_ref_idem ref =
    rw (written-parts ref) (normalize-written _ _ _ (IsCanonical-normalize ref))

-- For every reference, the normal form is registry/repository:tag, where the registry holds no
-- '/' and is recognised as one, the tag holds neither '/' nor ':', and no part holds '@'; and to
-- normalise it again changes nothing.
pub normalize_image_ref-IsCanonical :
    (ref : Bytes)
    → (normalize_image_ref ref ≡ written (registry_of ref) (repository_of ref) (tag_of ref))
      × IsCanonical (registry_of ref) (repository_of ref) (tag_of ref)
      × (normalize_image_ref (normalize_image_ref ref) ≡ normalize_image_ref ref)
normalize_image_ref-IsCanonical ref =
    (written-parts ref, IsCanonical-normalize ref, normalize_image_ref_idem ref)
