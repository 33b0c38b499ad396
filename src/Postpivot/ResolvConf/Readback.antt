-- ===== src/Postpivot/ResolvConf/Readback.antt =====
-- What is written to resolv.conf is read back.
use xmorph.Base.{
  ℕ, true, false, none, some, List, [], ◌∷◌, ◌++◌, All, ◌==◌, map, ◌≡◌, ◌≢◌, refl, ap, ◌∙◌, arith,
}
use xmorph.Base.Bytes.{
  Bytes, codes, equal, is_space, has_prefix, cut_prefix, trim_space, trim_left, trim_right,
  trim_suffix_byte, contains_byte,
}
use xmorph.Base.Bytes.Lines.{split, scan_lines, drop_last_empty}
use xmorph.Base.Bytes.Words.{
  IsWord, trim_right-append, trim_suffix_byte_absent, split-append, fields-append,
  contains_byte-IsWord,
}
use xmorph.Postpivot.ResolvConf.{
  Net, nameserver_word, server_of_line, servers_of_lines, read_nameservers, server_lines,
  resolv_text,
}

abbrev line_of : Bytes → Bytes
line_of s = codes "nameserver " ++ s

-- The heading without its line feed.
abbrev head_line : Bytes
head_line = codes "# written by xmorph: the pre-pivot resolver does not survive pivot_root"

contains_byte-line_of :
    (c : ℕ) (s : Bytes)
    → is_space c ≡ true
    → (c == 32) ≡ false
    → IsWord s
    → contains_byte c (line_of s) ≡ false
unfolding is_space
contains_byte-line_of c s h n w = ground (arith, contains_byte-IsWord c s h w)

nameserver_word-IsWord : IsWord nameserver_word
unfolding is_space
nameserver_word-IsWord = ground arith

module _ (net : Net) where
  -- A server that can be written: it is the text of its own address, and no loopback address.
  abbrev pub IsServer : Bytes → Type 0
  IsServer s = (net.parse_ip s ≡ some s) × (net.is_loopback s ≡ false) × (s ≢ []) × IsWord s

  server_of_line-line_of : (s : Bytes) → IsServer s → server_of_line net (line_of s) ≡ some s
  unfolding server_of_line trim_space trim_left is_space has_prefix cut_prefix equal
  server_of_line-line_of [] (p, l, n, w) = absurd (n refl)
  server_of_line-line_of (x ∷ s) (p, l, n, w) =
      rw
        (
          trim_right-append (codes "nameserver ") x s w,
          fields-append nameserver_word (x ∷ s) nameserver_word-IsWord w,
        )
        p

  split-server_lines :
      (ss : List Bytes)
      → All IsServer ss
      → drop_last_empty (split b'\n' (server_lines ss)) ≡ map line_of ss
  unfolding split server_lines is_space
  split-server_lines [] h = refl
  split-server_lines (s ∷ ss) ((p, l, n, w), h) =
      ap drop_last_empty (
        split-append b'\n' (line_of s) (server_lines ss)
          (contains_byte-line_of b'\n' s refl refl w))
      ∙ ap (λ ls. line_of s ∷ ls) (split-server_lines ss h)

  servers_of_lines-line_of :
      (ss : List Bytes)
      → All IsServer ss
      → servers_of_lines net (map (trim_suffix_byte b'\r') (map line_of ss)) ≡ ss
  unfolding servers_of_lines
  servers_of_lines-line_of [] h = refl
  servers_of_lines-line_of (s ∷ ss) ((p, l, n, w), h) =
      rw
        (
          trim_suffix_byte_absent b'\r' (line_of s) (contains_byte-line_of b'\r' s refl refl w),
          server_of_line-line_of s (p, l, n, w),
          servers_of_lines-line_of ss h,
        )
        refl

  server_of_line-head_line : server_of_line net head_line ≡ none
  unfolding server_of_line trim_space trim_left trim_right is_space has_prefix cut_prefix
  server_of_line-head_line = refl

  pub read_nameservers-resolv_text :
      (ss : List Bytes) → All IsServer ss → read_nameservers net (some (resolv_text ss)) ≡ ss
  unfolding read_nameservers resolv_text scan_lines servers_of_lines
  read_nameservers-resolv_text ss h =
      ap (λ ls. servers_of_lines net (map (trim_suffix_byte b'\r') (drop_last_empty ls)))
        (split-append b'\n' head_line (server_lines ss) refl)
      ∙ rw
          (
            trim_suffix_byte_absent b'\r' head_line refl,
            server_of_line-head_line,
            split-server_lines ss h,
          )
          (servers_of_lines-line_of ss h)
