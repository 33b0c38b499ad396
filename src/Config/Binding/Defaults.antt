-- ===== src/Config/Binding/Defaults.antt =====
-- The defaults that the flags register are those of `New`, and their names differ.
use xmorph.Base.{Bool, true, List, [], ◌∷◌, ◌&&◌, not, any, ◌≡◌, refl}
use xmorph.Base.Bytes.{equal}
use xmorph.Config.Types.{new, build}
use xmorph.Config.Binding.{
  Flag, flag_name, pivot_flags, build_flags, register, register_all, bind_pivot, bind_build,
}

abbrev pub distinct_names : List Flag → Bool
distinct_names [] = true
distinct_names (f ∷ fs) = not (any (λ g. equal (flag_name f) (flag_name g)) fs) && distinct_names fs

-- No flag is registered twice for a command, and registering the flags leaves a configuration
-- from `New` as it is, but for the subcommand of build: both places state the same defaults.
pub bind_defaults :
    (distinct_names pivot_flags ≡ true)
    × (distinct_names build_flags ≡ true)
    × (bind_pivot new ≡ new)
    × (bind_build new ≡ record new { subcommand = build })
unfolding bind_pivot bind_build register_all register equal
bind_defaults = (refl, refl, refl, refl)
