-- ===== src/Json/Print.antt =====
-- `json.dumps`: the printed form of a value, with the default separators. `ascii` is the option
-- `ensure_ascii`.
use Prim.Native.Nat.{ℕ, zero, suc, ◌+◌, ◌-◌, ◌/◌, ◌%◌}
use Prim.Native.Char.{Char, code}
use Prim.Native.String
use Prim.Native.String.{String}
use mathlib.Core.Bool.{Bool, true, ◌&&◌}
use nodus_hitl_hub.Base.{ltb, leb, nat_eq, if◌then◌else◌, concat, [], ◌∷◌, ◌≡◌, refl}
use nodus_hitl_hub.Base.Int.{ℤ, pos, negsuc}
use nodus_hitl_hub.Json.{
  Value, null, bool, int, float, str, arr, obj, Items, nil, cons, Fields, end, field,
}

-- One digit of a number in base 16 or below.
digit : ℕ → String
digit zero = "0"
digit (suc zero) = "1"
digit n =
    if nat_eq n 2
    then "2"
    else if nat_eq n 3
    then "3"
    else if nat_eq n 4
    then "4"
    else if nat_eq n 5
    then "5"
    else if nat_eq n 6
    then "6"
    else if nat_eq n 7
    then "7"
    else if nat_eq n 8
    then "8"
    else if nat_eq n 9
    then "9"
    else if nat_eq n 10
    then "a"
    else if nat_eq n 11
    then "b"
    else if nat_eq n 12
    then "c"
    else if nat_eq n 13
    then "d"
    else if nat_eq n 14
    then "e"
    else "f"

-- The digits of `n` in front of `rest`. The fuel `n + 1` suffices: every round divides by 10.
decimal_from : ℕ → ℕ → String → String
decimal_from zero n rest = rest
decimal_from (suc fuel) n rest =
    let longer = String.◌++◌ (digit (n % 10)) rest in
    let more = decimal_from fuel (n / 10) longer in if ltb n 10 then longer else more

-- `str(n)` of an int
unfoldable pub decimal : ℤ → String
unfolding decimal_from digit
decimal (pos n) = decimal_from (suc n) n ""
decimal (negsuc n) = String.◌++◌ "-" (decimal_from (suc (suc n)) (suc n) "")

-- `\uXXXX`
hex4 : ℕ → String
unfolding digit
hex4 n = concat (
    "\\u"
    ∷ digit (n / 4096 % 16)
    ∷ digit (n / 256 % 16)
    ∷ digit (n / 16 % 16)
    ∷ digit (n % 16)
    ∷ [])

-- A code point past U+FFFF is a surrogate pair.
wide : ℕ → String
unfolding hex4
wide n = String.◌++◌ (hex4 (55296 + (n - 65536) / 1024)) (hex4 (56320 + (n - 65536) % 1024))

escape : Bool → Char → String
unfolding hex4 wide
escape ascii ch =
    let c = code ch in
    if nat_eq c b'"'
    then "\\\""
    else if nat_eq c 92
    then "\\\\"
    else if nat_eq c 10
    then "\\n"
    else if nat_eq c 13
    then "\\r"
    else if nat_eq c 9
    then "\\t"
    else if nat_eq c 12
    then "\\f"
    else if nat_eq c 8
    then "\\b"
    else if ltb c 32
    then hex4 c
    else if ascii && leb 127 c
    then (if ltb c 65536 then hex4 c else wide c)
    else String.◌∷◌ ch ""

quote_from : Bool → String → String
unfolding escape
quote_from ascii String.[] = "\""
quote_from ascii (String.◌∷◌ ch s) = String.◌++◌ (escape ascii ch) (quote_from ascii s)

-- A text in quotes, escaped.
unfoldable pub quote : Bool → String → String
unfolding quote_from
quote ascii s = String.◌++◌ "\"" (quote_from ascii s)

unfoldable mutual
  unfolding quote decimal

  pub dumps : Bool → Value → String
  dumps ascii null = "null"
  dumps ascii (bool b) = if b then "true" else "false"
  dumps ascii (int z) = decimal z
  dumps ascii (float _ text) = text
  dumps ascii (str s) = quote ascii s
  dumps ascii (arr xs) = String.◌++◌ "[" (dumps_items ascii xs)
  dumps ascii (obj d) = String.◌++◌ "{" (dumps_fields ascii d)

  pub dumps_items : Bool → Items → String
  dumps_items ascii nil = "]"
  dumps_items ascii (cons v nil) = String.◌++◌ (dumps ascii v) "]"
  dumps_items ascii (cons v xs) = concat (dumps ascii v ∷ ", " ∷ dumps_items ascii xs ∷ [])

  pub dumps_fields : Bool → Fields → String
  dumps_fields ascii end = "}"
  dumps_fields ascii (field k v end) = concat (quote ascii k ∷ ": " ∷ dumps ascii v ∷ "}" ∷ [])
  dumps_fields ascii (field k v d) =
      concat (quote ascii k ∷ ": " ∷ dumps ascii v ∷ ", " ∷ dumps_fields ascii d ∷ [])

dumps_runs :
    dumps true
      (obj (field "a" (arr (cons (int (negsuc 41)) (cons null nil))) (field "è" (str "x\n") end)))
    ≡ "{\"a\": [-42, null], \"\\u00e8\": \"x\\n\"}"
unfolding dumps
dumps_runs = refl
