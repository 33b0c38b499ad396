-- ===== src/Tests/Addresses.antt =====
-- A parser of addresses for the runs of the resolver configuration.
use xmorph.Base.{
  Bool, true, false, none, some, List, [], ◌∷◌, ◌||◌, if◌then◌else◌, any, All, ◌≡◌, ◌≢◌, refl,
  arith,
}
use xmorph.Base.Bytes.{Bytes, codes, is_empty, is_space, has_prefix}
use xmorph.Base.Bytes.Words.{IsWord}
use xmorph.Postpivot.ResolvConf.{Net, fallback_nameservers}

-- Addresses are the texts without spaces, of which those of 127.0.0.0/8 are of this machine.
abbrev pub net : Net
net = record {
  parse_ip = λ s. if is_empty s || any is_space s then none else some s;
  is_loopback = has_prefix (codes "127.");
}

IsWord-any : (s : Bytes) → any is_space s ≡ false → IsWord s
IsWord-any [] h = tt
IsWord-any (c ∷ s) h = (ground (arith, h), IsWord-any s (ground (arith, h)))

pub net-shown :
    (s ip : Bytes) → net.parse_ip s ≡ some ip → (net.parse_ip ip ≡ some ip) × (ip ≢ []) × IsWord ip
net-shown [] ip e = cc
net-shown (c ∷ s) ip e =
    let f : any is_space (c ∷ s) ≡ false = ground (arith, e) in
    let same : ip ≡ c ∷ s = ground (arith, e) in
    let word = IsWord-any (c ∷ s) f in rw same (rw f refl, λ g. cc, word)

pub net-fallback :
    All (λ s. (net.parse_ip s ≡ some s) × (net.is_loopback s ≡ false)) fallback_nameservers
unfolding is_space has_prefix xmorph.Base.Bytes.cut_prefix
net-fallback = ((refl, refl), ((refl, refl), ((refl, refl), tt)))
