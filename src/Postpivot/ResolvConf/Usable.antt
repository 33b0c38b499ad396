-- ===== src/Postpivot/ResolvConf/Usable.antt =====
-- The resolver configuration that the new root ends up with.
use xmorph.Base.{
  true, false, Option, none, some, List, [], ◌∷◌, if◌then◌else◌, All, ◌≡◌, ◌≢◌, refl, arith,
  Bool-cases, Option-cases, inl, inr,
}
use xmorph.Base.Bytes.{Bytes, trim_space}
use xmorph.Base.Bytes.Lines.{scan_lines, fields}
use xmorph.Base.Bytes.Words.{IsWord}
use xmorph.Base.Result.{ok}
use xmorph.Postpivot.ResolvConf.{
  all_loopback, Net, Disk, address_of, or_fallback, fallback_nameservers, server_of_line,
  servers_of_lines, read_nameservers, is_routable, filter_routable, chosen_servers, resolv_text,
  has_usable, ensure_resolv_conf,
}
use xmorph.Postpivot.ResolvConf.Readback.{IsServer, read_nameservers-resolv_text}

module _ (net : Net)
    (parse_ip-shown : (s ip : Bytes)
      → net.parse_ip s ≡ some ip
      → (net.parse_ip ip ≡ some ip) × (ip ≢ []) × IsWord ip)
    (parse_ip-fallback : All
      (λ s. (net.parse_ip s ≡ some s) × (net.is_loopback s ≡ false))
      fallback_nameservers) where
  -- The text of an address.
  abbrev IsShown : Bytes → Type 0
  IsShown s = (net.parse_ip s ≡ some s) × (s ≢ []) × IsWord s

  address_of-IsShown : (fs : List Bytes) (s : Bytes) → address_of net fs ≡ some s → IsShown s
  address_of-IsShown [] s e = cc
  address_of-IsShown (key ∷ []) s e = cc
  address_of-IsShown (key ∷ value ∷ more) s e = parse_ip-shown value s (ground arith)

  server_of_line-IsShown : (l s : Bytes) → server_of_line net l ≡ some s → IsShown s
  unfolding server_of_line
  server_of_line-IsShown l s e = address_of-IsShown (fields (trim_space l)) s (ground arith)

  servers_of_lines-IsShown : (ls : List Bytes) → All IsShown (servers_of_lines net ls)
  unfolding servers_of_lines
  servers_of_lines-IsShown [] = tt
  servers_of_lines-IsShown (l ∷ ls) = elim (Option-cases (server_of_line net l)) [
    | inl e ↦ rw e (servers_of_lines-IsShown ls)
    | inr (s, e) ↦ rw e (server_of_line-IsShown l s e, servers_of_lines-IsShown ls)
  ]

  read_nameservers-IsShown : (file : Option Bytes) → All IsShown (read_nameservers net file)
  unfolding read_nameservers
  read_nameservers-IsShown none = tt
  read_nameservers-IsShown (some text) = servers_of_lines-IsShown (scan_lines text)

  filter_routable-IsServer :
      (ss : List Bytes) → All IsShown ss → All (IsServer net) (filter_routable net ss)
  unfolding filter_routable is_routable
  filter_routable-IsServer [] h = tt
  filter_routable-IsServer (s ∷ ss) ((p, n, w), h) = elim (Bool-cases (is_routable net s)) [
    | inl e ↦ rw e ((p, ground arith, n, w), filter_routable-IsServer ss h)
    | inr e ↦ rw e (filter_routable-IsServer ss h)
  ]

  fallback-IsServer :
      (s : Bytes) → (net.parse_ip s ≡ some s) × (net.is_loopback s ≡ false) → IsServer net s
  fallback-IsServer s (p, l) = let (q, n, w) = parse_ip-shown s s p in (p, l, n, w)

  or_fallback-IsServer :
      (ss : List Bytes) → All (IsServer net) ss → All (IsServer net) (or_fallback ss)
  or_fallback-IsServer (s ∷ ss) h = h
  or_fallback-IsServer [] h = (
    fallback-IsServer _ parse_ip-fallback.0,
    (fallback-IsServer _ parse_ip-fallback.1.0, (fallback-IsServer _ parse_ip-fallback.1.1.0, tt)),
  )

  chosen_servers-IsServer : (host : Option Bytes) → All (IsServer net) (chosen_servers net host)
  unfolding chosen_servers
  chosen_servers-IsServer host =
      let shown = read_nameservers-IsShown host in
      or_fallback-IsServer (filter_routable net (read_nameservers net host))
        (filter_routable-IsServer (read_nameservers net host) shown)

  has_usable-or_fallback :
      (ss : List Bytes)
      → All (IsServer net) (or_fallback ss)
      → has_usable net (or_fallback ss) ≡ true
  unfolding filter_routable is_routable
  has_usable-or_fallback [] ((p, l, n, w), h) = ground (arith, p, l)
  has_usable-or_fallback (s ∷ ss) ((p, l, n, w), h) = ground (arith, p, l)

  has_usable-loopback : (ss : List Bytes) → has_usable net ss ≡ true → all_loopback net ss ≡ false
  has_usable-loopback [] h = cc
  has_usable-loopback (s ∷ ss) h = ground (arith, h)

  has_usable-chosen_servers :
      (host : Option Bytes) → has_usable net (chosen_servers net host) ≡ true
  unfolding chosen_servers
  has_usable-chosen_servers host =
      has_usable-or_fallback (filter_routable net (read_nameservers net host))
        (chosen_servers-IsServer host)

  kept :
      (disk : Disk) (file host : Option Bytes)
      → has_usable net (read_nameservers net file) ≡ true
      → ensure_resolv_conf net disk file host ≡ (file, ok tt)
  unfolding ensure_resolv_conf
  kept disk file host e = rw e refl

  after_kept :
      (disk : Disk) (before host after : Option Bytes)
      → ensure_resolv_conf net disk before host ≡ (after, ok tt)
      → has_usable net (read_nameservers net before) ≡ true
      → after ≡ before
  unfolding ensure_resolv_conf
  after_kept disk before host after e u = ground arith

  after_written :
      (disk : Disk) (before host after : Option Bytes)
      → ensure_resolv_conf net disk before host ≡ (after, ok tt)
      → has_usable net (read_nameservers net before) ≡ false
      → after ≡ some (resolv_text (chosen_servers net host))
  unfolding ensure_resolv_conf
  after_written disk before host after e u = ground arith

  -- Whether an address can be parsed and is of the machine itself is asked of net, by which an
  -- address's own text is parsed to the address and is not empty and without spaces, and the
  -- fallback servers are parsed to themselves and are not loopback. If EnsureResolvConf succeeds,
  -- the servers that are read back from the new root's file are those of its own file, if that had
  -- one that is no loopback address, and otherwise those that were chosen from the host's file,
  -- each of them and in their order; one of them is no loopback address; and to run it again, with
  -- whatever host and disk, leaves the file as it is.
  pub ensure_resolv_conf-read_nameservers :
      (disk : Disk) (before host after : Option Bytes)
      → ensure_resolv_conf net disk before host ≡ (after, ok tt)
      → (read_nameservers net after ≡ (
          if has_usable net (read_nameservers net before)
          then read_nameservers net before
          else chosen_servers net host))
        × (all_loopback net (read_nameservers net after) ≡ false)
        × ((later : Disk) (other : Option Bytes)
            → ensure_resolv_conf net later after other ≡ (after, ok tt))
  ensure_resolv_conf-read_nameservers disk before host after e =
      let back =
        read_nameservers-resolv_text net (chosen_servers net host) (chosen_servers-IsServer host) in
      let good = has_usable-chosen_servers host in
      let routable = has_usable-loopback (chosen_servers net host) good in
      elim (Bool-cases (has_usable net (read_nameservers net before))) [
        | inl u ↦
            rw (after_kept disk before host after e u, u)
              (
                refl,
                has_usable-loopback (read_nameservers net before) u,
                λ later other. kept later before other u,
              )
        | inr u ↦
            let written = some (resolv_text (chosen_servers net host)) in
            rw (after_written disk before host after e u, u, back)
              (refl, routable, λ later other. kept later written other (rw back good))
      ]
