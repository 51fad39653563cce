-- ===== src/Base/Text.antt =====
-- Texts: f-strings and `str.join` as concatenations, truth of a text, `or` on an optional text.
use Prim.Native.String
use Prim.Native.String.{String}
use mathlib.Core.Bool.{Bool, false, not, ◌||◌}
use mathlib.Core.Option.{Option, none, some}
use mathlib.Core.List.{List, [], ◌∷◌}
use text.Mathlib.Text.{◌==◌}
use nodus_hitl_hub.Base.Tests.{if◌then◌else◌}

-- An f-string, part by part.
abbrev pub concat : List String → String
concat [] = ""
concat (s ∷ []) = s
concat (s ∷ parts) = String.◌++◌ s (concat parts)

-- `sep.join(parts)`
abbrev pub join : String → List String → String
join sep [] = ""
join sep (s ∷ []) = s
join sep (s ∷ parts) = String.◌++◌ s (String.◌++◌ sep (join sep parts))

-- `bool(s)`
abbrev pub is_full : String → Bool
is_full s = not (s == "")

-- `bool(o)` of an `Optional[str]`
abbrev pub is_given : Option String → Bool
is_given none = false
is_given (some s) = is_full s

-- `o or default`
abbrev pub or_text : Option String → String → String
or_text none d = d
or_text (some s) d = if is_full s then s else d

-- `s in (…)`
abbrev pub is_one_of : String → List String → Bool
is_one_of s [] = false
is_one_of s (t ∷ ts) = s == t || is_one_of s ts

-- `o == s` of an `Optional[str]`; in SQL, a NULL equals nothing.
abbrev pub is_text : Option String → String → Bool
is_text none s = false
is_text (some t) s = t == s
