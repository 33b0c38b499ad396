-- ===== src/Config/Validate.antt =====
-- internal/config/validate.go: the checks after parsing, with the warnings that they print.
use xmorph.Base.{Bool, List, [], ◌∷◌, ◌++◌, ◌&&◌, not, ◌==◌, if◌then◌else◌}
use xmorph.Base.Bytes.{is_empty, equal}
use xmorph.Base.Int.{is_zero, lt_pos}
use xmorph.Base.Result.{Result, ok, err}
use xmorph.Config.Types.{Config, default_tailscale_image, second}

pub data ValidateError : Type 0 where
  invalid_timeout watchdog_too_short : ValidateError

pub data Warning : Type 0 where
  args_without_authkey image_without_authkey image_is_deprecated : Warning

abbrev warn_if : Bool → Warning → List Warning
warn_if b w = if b then w ∷ [] else []

unfoldable pub other_image : Config → Bool
other_image c = not (equal c.tailscale_image default_tailscale_image)

unfoldable pub warnings : Config → List Warning
unfolding other_image
warnings c =
    (if is_empty c.tailscale_authkey
      then warn_if (not (is_empty c.tailscale_args)) args_without_authkey
        ++ warn_if (other_image c) image_without_authkey
      else [])
    ++ warn_if (other_image c) image_is_deprecated

-- What it writes to `warnW`, and what it returns.
unfoldable pub validate : Config → List Warning × Result ValidateError (Unit {0})
validate c =
    if c.timeout == 0
    then ([], err invalid_timeout)
    else if not (is_zero c.watchdog_timeout) && lt_pos c.watchdog_timeout second
    then ([], err watchdog_too_short)
    else (warnings c, ok tt)
