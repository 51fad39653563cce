-- ===== src/Base/Number.antt =====
-- `int(text)`: blanks around, an optional sign, digits with single underscores between them. Only
-- ASCII digits and blanks are read; other text is the `ValueError`, `none`.
use Prim.Native.Char.{code}
use Prim.Native.String.{String, [], ◌∷◌}
use Prim.Native.Nat.{ℕ, zero, suc, ◌+◌, ◌*◌, ◌-◌}
use mathlib.Core.Path.{◌≡◌, refl}
use mathlib.Core.Bool.{Bool, true, false, ◌&&◌, ◌||◌}
use mathlib.Core.Option.{Option, none, some}
use nodus_hitl_hub.Base.{if◌then◌else◌, leb, nat_eq}
use nodus_hitl_hub.Base.Int.{negsuc, pos, ℤ}

-- Where the scan stands: before the sign, behind the sign, behind a digit, behind an underscore,
-- behind the number.
pub data Mode : Type 0 where
  start sign digit under trailing : Mode

is_blank : ℕ → Bool
is_blank c = (leb 9 c && leb c 13) || (leb 28 c && leb c 32)

is_digit : ℕ → Bool
is_digit c = leb b'0' c && leb c b'9'

signed : Bool → ℕ → ℤ
signed false n = pos n
signed true zero = pos 0
signed true (suc n) = negsuc n

-- The mode after a character, `none` for a refusal.
next_mode : Mode → ℕ → Option Mode
unfolding is_blank is_digit
next_mode start c =
    if is_blank c
    then some start
    else if nat_eq c b'+' || nat_eq c b'-'
    then some sign
    else if is_digit c
    then some digit
    else none
next_mode sign c = if is_digit c then some digit else none
next_mode digit c =
    if is_digit c
    then some digit
    else if nat_eq c b'_'
    then some under
    else if is_blank c
    then some trailing
    else none
next_mode under c = if is_digit c then some digit else none
next_mode trailing c = if is_blank c then some trailing else none

finish : Mode → Bool → ℕ → Option ℤ
unfolding signed
finish digit neg n = some (signed neg n)
finish trailing neg n = some (signed neg n)
finish _ neg n = none

scan : Mode → Bool → ℕ → String → Option ℤ
unfolding next_mode finish
scan mode neg n [] = finish mode neg n
scan mode neg n (ch ∷ s) =
    let c = code ch in
    let n' = if is_digit c then n * 10 + (c - b'0') else n in
    elim (next_mode mode c) [ none ↦ none | some mode' ↦ scan mode' (neg || nat_eq c b'-') n' s ]

unfoldable pub parse_int : String → Option ℤ
unfolding scan
parse_int text = scan start false 0 text

parse_int_runs : parse_int " -1_0 " ≡ some (negsuc 9)
unfolding parse_int
parse_int_runs = refl

parse_int_refuses : parse_int "1__0" ≡ none
unfolding parse_int
parse_int_refuses = refl
