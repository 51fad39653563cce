-- ===== src/Base/Strip.antt =====
-- `rstrip` of slashes.
use Prim.Native.Char.{Char, code}
use Prim.Native.String.{String, [], ◌∷◌}
use mathlib.Core.Bool.{Bool, not, ◌&&◌}
use nodus_hitl_hub.Base.{if◌then◌else◌, is_full, nat_eq}

-- `text.rstrip("/")`
abbrev is_slash : Char → Bool
is_slash c = nat_eq (code c) b'/'

unfoldable pub strip_slashes : String → String
strip_slashes [] = []
strip_slashes (c ∷ s) =
    let rest = strip_slashes s in if is_slash c && not (is_full rest) then [] else c ∷ rest
