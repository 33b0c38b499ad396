-- ===== src/Config/Flags/Normal.antt =====
-- What holds of every configuration after `Normalize`.
use xmorph.Base.{
  Bool, true, Option, List, [], ◌∷◌, ◌||◌, not, arith, ◌≡◌, ◌≢◌, refl, ◌++◌, append-nil,
}
use xmorph.Base.Bytes.{Bytes, equal_refl}
use xmorph.Config.Types.{Config, Layer, ssh_enabled, tailscale_enabled, is_some}
use xmorph.Config.Layers.{deduplicate_layers, seen_key, layer_key}
use xmorph.Config.Layers.Unique.{
  HasDistinctKeys, deduplicate_layers_distinct, deduplicate_layers-keep_last, keep_last,
  seen_key-keep_last,
}
use xmorph.Config.Flags.{normalize, or_default}

or_default-ne-nil : (ls : List Layer) → or_default ls ≢ []
or_default-ne-nil [] = cc
or_default-ne-nil (l ∷ ls) = cc

or_default_fixed : (ls : List Layer) → ls ≢ [] → or_default ls ≡ ls
or_default_fixed [] h = absurd (h refl)
or_default_fixed (l ∷ ls) h = refl

keep_last-ne-nil : (ls : List Layer) → ls ≢ [] → keep_last ls ≢ []
unfolding seen_key
keep_last-ne-nil [] h e = h refl
keep_last-ne-nil (l ∷ ls) h e =
    ground (arith, seen_key-keep_last (layer_key l) (l ∷ ls), equal_refl (layer_key l))

module _ (changed : Bytes → Bool) (positional : List Bytes) (env : Bytes → Option Bytes) where
  normalize-ssh_enabled :
      (c : Config)
      → let n = normalize changed positional env c in
        (ssh_enabled n ≡ ssh_enabled c)
        × (tailscale_enabled n ≡ tailscale_enabled c)
        × ((not (ssh_enabled c) || is_some n.ssh_port) ≡ true)
        × (n.no_init_coord ≡ (c.systemd_mode || c.no_init_coord))
        × (n.force ≡ (c.systemd_mode || c.force))
  unfolding normalize ssh_enabled tailscale_enabled
  normalize-ssh_enabled c = ground arith

  pub normalize-layers :
      (c : Config)
      → ((normalize changed positional env c).layers ≢ [])
        × HasDistinctKeys (normalize changed positional env c).layers
  unfolding normalize
  normalize-layers c = rw deduplicate_layers-keep_last (
    keep_last-ne-nil _ (or_default-ne-nil c.layers),
    rw deduplicate_layers-keep_last at (deduplicate_layers_distinct (or_default c.layers)).0,
  )

  -- Normalising decides nothing about SSH and Tailscale: each is enabled afterwards exactly if it
  -- was before. If SSH is enabled then its port is set afterwards. Under --systemd-mode there is
  -- no coordination with the init system and no confirmation; otherwise both stay as they were.
  -- A normalised configuration has at least one layer and no two layers with one key. Normalising it
  -- again, with no further arguments, changes nothing.
  pub normalize_idem :
      (c : Config)
      → (normalize changed [] env (normalize changed positional env c)
          ≡ normalize changed positional env c)
        × ((normalize changed positional env c).layers ≢ [])
        × HasDistinctKeys (normalize changed positional env c).layers
        × (let n = normalize changed positional env c in
            (ssh_enabled n ≡ ssh_enabled c)
            × (tailscale_enabled n ≡ tailscale_enabled c)
            × ((not (ssh_enabled c) || is_some n.ssh_port) ≡ true)
            × (n.no_init_coord ≡ (c.systemd_mode || c.no_init_coord))
            × (n.force ≡ (c.systemd_mode || c.force)))
  unfolding normalize
  normalize_idem c =
      let layers = normalize-layers c in
      (
        ground (
          arith,
          append-nil (c.command ++ positional),
          or_default_fixed (deduplicate_layers (or_default c.layers)) layers.0,
          (deduplicate_layers_distinct (or_default c.layers)).2,
        ),
        layers.0,
        layers.1,
        normalize-ssh_enabled c,
      )
