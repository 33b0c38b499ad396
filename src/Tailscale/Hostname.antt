-- ===== src/Tailscale/Hostname.antt =====
-- The name on the tailnet before the pivot and after it.
use xmorph.Base.{
  ℕ, Bool, true, false, Option, none, some, List, [], ◌∷◌, ◌++◌, not, any, if◌then◌else◌, ◌≡◌, refl,
  ap, arith, append_assoc, append-nil, Bool-cases, Option-cases, inl, inr,
}
use xmorph.Base.Bytes.{Bytes, codes, equal, equal_refl, is_empty, is_space}
use xmorph.Base.Bytes.Lines.{fields, keep_field, open_fields}
use xmorph.Base.Bytes.Unicode.{plain_spaces, unicode_fields}
use xmorph.Config.Types.{Config}
use xmorph.Tailscale.{
  read_hostname, or_own, is_blank, split_from, split_args, given_hostname, tailscale_hostname,
  first_hostname, hostname_from_args,
}

-- An ASCII space of strings.Fields that is none of splitArgs.
abbrev pub is_other_space : ℕ → Bool
is_other_space c = if is_blank c then false else is_space c

is_blank-is_space : (c : ℕ) → is_other_space c ≡ false → is_blank c ≡ is_space c
unfolding is_space
is_blank-is_space c h = ground arith

split_from-open_fields :
    (s cur : Bytes)
    → any is_other_space s ≡ false
    → split_from cur s ≡ keep_field (cur ++ (open_fields s).0) (open_fields s).1
unfolding split_from open_fields
split_from-open_fields [] cur h = rw (append-nil cur) refl
split_from-open_fields (c ∷ s) cur h =
    let q : any is_other_space s ≡ false = ground (arith, h) in
    let same = is_blank-is_space c (ground (arith, h)) in
    elim (Bool-cases (is_space c)) [
      | inl e ↦ rw (same, e, append-nil cur, split_from-open_fields s [] q) refl
      | inr e ↦
          rw
            (
              same,
              e,
              split_from-open_fields s (cur ++ c ∷ []) q,
              append_assoc cur (c ∷ []) (open_fields s).0,
            )
            refl
    ]

-- Without other spaces the arguments are split alike.
split_args-fields : (s : Bytes) → any is_other_space s ≡ false → split_args s ≡ fields s
unfolding split_args fields
split_args-fields s h = split_from-open_fields s [] h

given-first :
    (tokens : List Bytes)
    → is_empty (first_hostname tokens) ≡ false
    → given_hostname tokens ≡ some (first_hostname tokens)
unfolding given_hostname first_hostname
given-first [] h = cc
given-first (t ∷ ts) h = ground (arith, given-first ts)

given_IsName :
    (tokens : List Bytes) (name : Bytes) → given_hostname tokens ≡ some name → is_empty name ≡ false
unfolding given_hostname
given_IsName [] name h = cc
given_IsName (t ∷ ts) name h = ground (arith, given_IsName ts name)

ends_in_word : (s t : Bytes) (c : ℕ) → is_empty (s ++ c ∷ t) ≡ false
ends_in_word [] t c = refl
ends_in_word (x ∷ s) t c = refl

given_fields :
    (args : Bytes)
    → any is_other_space args ≡ false
    → (if is_empty args then none else given_hostname (split_args args))
      ≡ given_hostname (fields args)
unfolding given_hostname fields open_fields
given_fields [] h = refl
given_fields (x ∷ s) h = ap given_hostname (split_args-fields (x ∷ s) h)

or_own_IsName :
    (host : Option Bytes) (tokens : List Bytes)
    → is_empty (or_own host (given_hostname tokens)) ≡ false
or_own_IsName host tokens = elim (Option-cases (given_hostname tokens)) [
  | inl e ↦ rw e (ends_in_word (read_hostname host) (codes "xmorph") b'-')
  | inr (name, e) ↦ rw e (given_IsName tokens name e)
]

equal-empty : (s t : Bytes) → is_empty s ≡ true → is_empty t ≡ false → equal s t ≡ false
unfolding equal
equal-empty [] (y ∷ t) h k = refl
equal-empty (x ∷ s) t h k = cc
equal-empty [] [] h k = cc

equal-or_own :
    (host : Option Bytes) (tokens : List Bytes)
    → equal (first_hostname tokens) (or_own host (given_hostname tokens))
      ≡ not (is_empty (first_hostname tokens))
equal-or_own host tokens = elim (Bool-cases (is_empty (first_hostname tokens))) [
  | inl e ↦
      rw
        (
          equal-empty (first_hostname tokens) (or_own host (given_hostname tokens)) e
              (or_own_IsName host tokens),
          e,
        )
        refl
  | inr e ↦ rw (given-first tokens e, equal_refl (first_hostname tokens), e) refl
]

-- If the arguments have no white space but blanks and tabs, be it of ASCII or beyond, the name under
-- which the machine comes back on the tailnet after the pivot is the one that it was registered by
-- before exactly if the first --hostname= among the arguments has a value. So it is another one
-- without arguments, for which the pivot registers the host's name with a suffix and the supervisor
-- passes the empty name.
pub tailscale_hostname-hostname_from_args :
    (host : Option Bytes) (c : Config)
    → any is_other_space c.tailscale_args ≡ false
    → plain_spaces c.tailscale_args ≡ c.tailscale_args
    → equal (hostname_from_args c.tailscale_args) (tailscale_hostname host c)
      ≡ not (is_empty (hostname_from_args c.tailscale_args))
unfolding tailscale_hostname hostname_from_args unicode_fields
tailscale_hostname-hostname_from_args host c h plain =
    rw (plain, given_fields c.tailscale_args h) (equal-or_own host (fields c.tailscale_args))
