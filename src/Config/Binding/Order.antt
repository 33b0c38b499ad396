-- ===== src/Config/Binding/Order.antt =====
-- Repeatable flags keep the order of the command line, whatever stands between them.
use xmorph.Base.{
  ℕ, Bool, Option, none, some, List, [], ◌∷◌, ◌++◌, ◌≡◌, sym, ap, ◌∙◌, arith, append_assoc, inl,
  inr, Option-cases, append-nil,
}
use xmorph.Base.Bytes.{Bytes}
use xmorph.Base.Int.{ℤ}
use xmorph.Config.Types.{Config, Layer, image, rootfs}
use xmorph.Config.Binding.{Flag, image_flag, rootfs_flag, command, cmd}
use xmorph.Config.Binding.Parse.{set, set_all}

-- The layers of a command line: its --image and --rootfs values.
abbrev pub layers_of : List (Flag × Bytes) → List Layer
layers_of [] = []
layers_of ((image_flag, v) ∷ args) = image v ∷ layers_of args
layers_of ((rootfs_flag, v) ∷ args) = rootfs v ∷ layers_of args
layers_of ((_, v) ∷ args) = layers_of args

-- Its --command and --cmd values.
abbrev pub commands_of : List (Flag × Bytes) → List Bytes
commands_of [] = []
commands_of ((command, v) ∷ args) = v ∷ commands_of args
commands_of ((cmd, v) ∷ args) = v ∷ commands_of args
commands_of ((_, v) ∷ args) = commands_of args

none≢some : {A : Type 0} {a : A} → Path (Option A) none (some a) → ⊥
none≢some h = cc

module _ (bool : Bytes → Option Bool) (uint32 : Bytes → Option ℕ)
    (duration : Bytes → Option ℤ) where
  set_order :
      (f : Flag) (v : Bytes) (c d : Config)
      → set bool uint32 duration f v c ≡ some d
      → (d.layers ≡ c.layers ++ layers_of ((f, v) ∷ []))
        × (d.command ≡ c.command ++ commands_of ((f, v) ∷ []))
  unfolding set
  set_order f v c d e = ground (arith, append-nil c.layers, append-nil c.command)

  layers_of_cons :
      (f : Flag) (v : Bytes) (args : List (Flag × Bytes))
      → (layers_of ((f, v) ∷ args) ≡ layers_of ((f, v) ∷ []) ++ layers_of args)
        × (commands_of ((f, v) ∷ args) ≡ commands_of ((f, v) ∷ []) ++ commands_of args)
  layers_of_cons f v args = ground arith

  -- If every value of a command line is accepted, the layers are those from before and then the
  -- --image and --rootfs values, interleaved as they were given, and the command is that from
  -- before and then the --command and --cmd values in their order. No other flag touches either.
  pub set_all_order :
      (args : List (Flag × Bytes)) (c d : Config)
      → set_all bool uint32 duration args c ≡ some d
      → (d.layers ≡ c.layers ++ layers_of args) × (d.command ≡ c.command ++ commands_of args)
  unfolding set_all
  set_all_order [] c d e = ground (arith, append-nil c.layers, append-nil c.command)
  set_all_order ((f, v) ∷ args) c d e = elim (Option-cases (set bool uint32 duration f v c)) [
    | inl q ↦
        let r : set_all bool uint32 duration ((f, v) ∷ args) c ≡ none = rw (set_all, q) in
        absurd (none≢some (sym r ∙ e))
    | inr (b, q) ↦
        let r : set_all bool uint32 duration ((f, v) ∷ args) c
            ≡ set_all bool uint32 duration args b =
          rw (set_all, q) in
        let (l, m) = set_order f v c b q in
        let (ls, ms) = set_all_order args b d (sym r ∙ e) in
        let (k, n) = layers_of_cons f v args in
        (
          ls
              ∙ ap (λ (x : List Layer). x ++ layers_of args) l
              ∙ append_assoc c.layers (layers_of ((f, v) ∷ [])) (layers_of args)
              ∙ ap (λ (x : List Layer). c.layers ++ x) (sym k),
          ms
              ∙ ap (λ (x : List Bytes). x ++ commands_of args) m
              ∙ append_assoc c.command (commands_of ((f, v) ∷ [])) (commands_of args)
              ∙ ap (λ (x : List Bytes). c.command ++ x) (sym n),
        )
  ]
