-- ===== src/Oci/Extract/Keeps.antt =====
-- What a call of the extraction keeps: the calls' own laws, and sequences, branches and paths.
use xmorph.Base.{
  ℕ, Bool, true, false, some, List, [], ◌∷◌, if◌then◌else◌, arith, ◌≡◌, refl, All, Option-cases,
  inl, inr,
}
use xmorph.Base.Bytes.{Bytes, trim_prefix, cut_last, cut_prefix}
use xmorph.Base.Bytes.Cut.{cut_last-some, cut_last-none}
use xmorph.Base.Result.{Result, ok, err}
use xmorph.Path.{join}
use xmorph.Path.Names.{has_slash, IsName, path_of}
use xmorph.Oci.SecureJoin.{Entry, JoinError, secure_join}
use xmorph.Oci.SecureJoin.Contained.{secure_join-Beneath, Beneath-All}
use xmorph.Oci.Disk.{Header, listed, Disk, ExtractError}
use xmorph.Oci.Extract.{relabel, judge, split_entry, Io, proceed, bind, after, try, secure}

-- A path of names beneath the root.
abbrev pub Inner : Bytes → Bytes → Type 0
Inner root path = (comps : List Bytes) × All IsName comps × (path ≡ join root (path_of comps))

-- Such a path joined with one more component, which has no slash.
abbrev pub Target : Bytes → Bytes → Type 0
Target root path =
    (parent base : Bytes) × Inner root parent × (has_slash base ≡ false) × (path ≡ join parent base)

-- The calls keep `Inv` at paths of these two kinds, and directories list names without a slash.
pub record Keeper {ℓ} (disk : Disk) (root : Bytes) (Inv : disk.State → Type ℓ) : Type ℓ where
  pub names :
      (s : disk.State) (dir : Bytes) (ns : List Bytes)
      → disk.read_dir s dir ≡ listed ns
      → All (λ n. has_slash n ≡ false) ns
  pub make_root : (s : disk.State) → Inv s → Inv (disk.mkdir_all root s).0
  pub make_parent : (p : Bytes) (s : disk.State) → Inner root p → Inv s → Inv (disk.mkdir_all p s).0
  pub make_dir : (p : Bytes) (s : disk.State) → Target root p → Inv s → Inv (disk.mkdir_all p s).0
  pub removal : (p : Bytes) (s : disk.State) → Target root p → Inv s → Inv (disk.remove_all p s).0
  pub creation : (p : Bytes) (s : disk.State) → Target root p → Inv s → Inv (disk.create_excl p s).0
  pub copying : (p c : Bytes) (s : disk.State) → Target root p → Inv s → Inv (disk.copy p c s).0
  pub closing : (p : Bytes) (s : disk.State) → Target root p → Inv s → Inv (disk.close p s).0
  pub chmodding :
      (p : Bytes) (m : ℕ) (s : disk.State) → Target root p → Inv s → Inv (disk.chmod p m s).0
  pub symlinking :
      (d p : Bytes) (s : disk.State) → Target root p → Inv s → Inv (disk.symlink d p s).0
  pub linking :
      (q p : Bytes) (s : disk.State)
      → Inner root q
      → Target root p
      → Inv s
      → Inv (disk.link q p s).0
  pub device :
      (p : Bytes) (h : Header) (s : disk.State)
      → Target root p
      → Inv s
      → Inv (disk.make_device p h s).0

relabel_ok {ℓ} :
    {A : Type ℓ} (e : ExtractError) (r : Result JoinError A) (a : A) → relabel e r ≡ ok a → r ≡ ok a
relabel_ok e (ok b) a h = cc
relabel_ok e (err f) a h = cc

secure-Inner :
    (lstat : Bytes → Entry) (root path at : Bytes)
    → secure_join lstat root path ≡ ok at
    → Inner root at
secure-Inner lstat root path at e =
    let (comps, q, h) = secure_join-Beneath lstat root path at e in
    (comps, Beneath-All lstat root comps h, q)

cut_prefix_no_slash :
    (p s rest : Bytes) → has_slash s ≡ false → cut_prefix p s ≡ some rest → has_slash rest ≡ false
unfolding cut_prefix
cut_prefix_no_slash [] s rest h e = ground arith
cut_prefix_no_slash (c ∷ p) [] rest h e = cc
cut_prefix_no_slash (c ∷ p) (x ∷ s) rest h e = ground (arith, cut_prefix_no_slash p s rest)

pub trim_prefix_no_slash : (p s : Bytes) → has_slash s ≡ false → has_slash (trim_prefix p s) ≡ false
unfolding trim_prefix cut_prefix
trim_prefix_no_slash p s h = elim (Option-cases (cut_prefix p s)) [
  | inl e ↦ rw (trim_prefix, e) h
  | inr o ↦ rw (trim_prefix, o.1) (cut_prefix_no_slash p s (o.0) h (o.1))
]

pub split_entry_no_slash : (s : Bytes) → has_slash (split_entry s).1 ≡ false
split_entry_no_slash s = elim (Option-cases (cut_last b'/' s)) [
  | inl e ↦ rw (split_entry, e) (cut_last-none b'/' s e)
  | inr p ↦ rw (split_entry, p.1) ((cut_last-some b'/' s (p.0.0) (p.0.1) (p.1)).1)
]

module _ {ℓ} (disk : Disk) (root : Bytes) (Inv : disk.State → Type ℓ) where
  abbrev pub Keeps {κ} : {A : Type κ} → Io disk A → Type ℓ
  Keeps m = (s : disk.State) → Inv s → Inv (m s).0

  Keeps-proceed {κ μ} :
      {A : Type κ} {B : Type μ} (r : disk.State × Result ExtractError A) (f : A → Io disk B)
      → Inv r.0
      → ((a : A) → r.1 ≡ ok a → Keeps (f a))
      → Inv (proceed disk r f).0
  Keeps-proceed (s, ok a) f i k = k a refl s i
  Keeps-proceed (s, err e) f i k = i

  pub Keeps-after {κ} :
      {B : Type κ} (m : Io disk (Unit {0})) (k : Io disk B)
      → Keeps m
      → Keeps k
      → Keeps (after disk m k)
  unfolding after bind
  Keeps-after m k h g s i = Keeps-proceed (m s) (λ u. k) (h s i) (λ a e. g)

  Keeps-judge : (e : ExtractError) (r : disk.State × Bool) → Inv r.0 → Inv (judge disk e r).0
  Keeps-judge e (s, true) i = i
  Keeps-judge e (s, false) i = i

  pub Keeps-try :
      (call : disk.State → disk.State × Bool) (e : ExtractError)
      → ((s : disk.State) → Inv s → Inv (call s).0)
      → Keeps (try disk call e)
  unfolding try
  Keeps-try call e h s i = Keeps-judge e (call s) (h s i)

  pub Keeps-if {κ} :
      {A : Type κ} (b : Bool) (m n : Io disk A) → Keeps m → Keeps n → Keeps (if b then m else n)
  Keeps-if true m n h k = h
  Keeps-if false m n h k = k

  pub Keeps-secure {κ} :
      {B : Type κ} (path : Bytes) (e : ExtractError) (f : Bytes → Io disk B)
      → ((at : Bytes) → Inner root at → Keeps (f at))
      → Keeps (bind disk (secure disk root path e) f)
  unfolding bind secure
  Keeps-secure path e f k s i =
      Keeps-proceed (s, relabel e (secure_join (disk.lstat s) root path)) f i
        (λ at q. k at (secure-Inner (disk.lstat s) root path at (relabel_ok e _ at q)))
