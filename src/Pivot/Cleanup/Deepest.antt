-- ===== src/Pivot/Cleanup/Deepest.antt =====
-- Mounts are unmounted deepest first, and exactly those whose path starts with the old root.
use xmorph.Base.{
  ℕ, Bool, some, List, [], ◌∷◌, ◌+◌, ◌≤◌, if◌then◌else◌, ltb, length, All, arith, ◌≡◌, refl, ◌∙◌,
  Bool-cases, inl, inr,
}
use xmorph.Base.Bytes.{Bytes, equal, equal_sound, has_prefix}
use xmorph.Pivot.Cleanup.{under, place_longest, sort_longest, failures, unmount_under}

-- No path has a longer one behind it.
abbrev pub LongestFirst : List Bytes → Type 0
LongestFirst [] = Unit
LongestFirst (m ∷ ms) = All (λ n. length n ≤ length m) ms × LongestFirst ms

-- How often a path stands in a list.
unfoldable pub count : Bytes → List Bytes → ℕ
count m [] = 0
count m (n ∷ ns) = (if equal m n then 1 else 0) + count m ns

count-place_longest :
    (p m : Bytes) (ms : List Bytes)
    → count p (place_longest m ms) ≡ (if equal p m then 1 else 0) + count p ms
unfolding place_longest count
count-place_longest p m [] = refl
count-place_longest p m (n ∷ ns) = ground (arith, count-place_longest p m ns)

count-sort_longest : (p : Bytes) (ms : List Bytes) → count p (sort_longest ms) ≡ count p ms
unfolding sort_longest count
count-sort_longest p [] = refl
count-sort_longest p (m ∷ ms) =
    ground (arith, count-place_longest p m (sort_longest ms), count-sort_longest p ms)

All-place_longest :
    (bound : ℕ) (m : Bytes) (ms : List Bytes)
    → length m ≤ bound
    → All (λ n. length n ≤ bound) ms
    → All (λ n. length n ≤ bound) (place_longest m ms)
unfolding place_longest
All-place_longest bound m [] h k = (h, tt)
All-place_longest bound m (n ∷ ns) h (l, k) = elim (Bool-cases (ltb (length m) (length n))) [
  | inl e ↦ rw e (l, All-place_longest bound m ns h k)
  | inr e ↦ rw e (h, (l, k))
]

All-widen :
    (a b : ℕ) (ms : List Bytes) → a ≤ b → All (λ n. length n ≤ a) ms → All (λ n. length n ≤ b) ms
All-widen a b [] h k = tt
All-widen a b (m ∷ ms) h (l, k) = (omega arith, All-widen a b ms h k)

LongestFirst-place_longest :
    (m : Bytes) (ms : List Bytes) → LongestFirst ms → LongestFirst (place_longest m ms)
unfolding place_longest
LongestFirst-place_longest m [] h = (tt, tt)
LongestFirst-place_longest m (n ∷ ns) (h, k) = elim (Bool-cases (ltb (length m) (length n))) [
  | inl e ↦
      rw e (All-place_longest (length n) m ns (ground arith) h, LongestFirst-place_longest m ns k)
  | inr e ↦ rw e ((ground arith, All-widen (length n) (length m) ns (ground arith) h), (h, k))
]

LongestFirst-sort_longest : (ms : List Bytes) → LongestFirst (sort_longest ms)
unfolding sort_longest
LongestFirst-sort_longest [] = tt
LongestFirst-sort_longest (m ∷ ms) =
    LongestFirst-place_longest m (sort_longest ms) (LongestFirst-sort_longest ms)

count-under :
    (old_root p : Bytes) (mounts : List Bytes)
    → count p (under old_root mounts) ≡ (if has_prefix old_root p then count p mounts else 0)
unfolding under count
count-under old_root p [] = ground arith
count-under old_root p (m ∷ ms) = elim (Bool-cases (equal p m)) [
  | inl e ↦ let q = equal_sound p m e in ground (arith, count-under old_root p ms, q)
  | inr e ↦ ground (arith, count-under old_root p ms)
]

-- If the mounts can be read, every path is unmounted as often as it stands among them if it starts
-- with the text of the old root, and not at all otherwise; no path comes before a longer one, so no
-- mount before one that is mounted beneath it. The failures that are returned are those unmounts
-- that failed, in that order.
pub unmount_under-LongestFirst :
    (old_root : Bytes) (unmounts : Bytes → Bool) (mounts : List Bytes)
    → (order : List Bytes) × (unmount_under old_root unmounts (some mounts)
        ≡ some (order, failures unmounts order))
      × LongestFirst order
      × ((p : Bytes) → count p order ≡ (if has_prefix old_root p then count p mounts else 0))
unfolding unmount_under
unmount_under-LongestFirst old_root unmounts mounts =
    let found = under old_root mounts in
    (
      sort_longest found,
      refl,
      LongestFirst-sort_longest found,
      λ p. count-sort_longest p found ∙ count-under old_root p mounts,
    )
