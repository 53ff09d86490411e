-- ===== src/Json/Text.antt =====
-- Texts that Python makes of values: decimal integers, str(value), and json.dumps(value) with the
-- separators "," and ":", ensure_ascii=False, as hash.py calls it.
use Prim.Native.Char.{code}
use Prim.Native.String.{[], ◌∷◌, ◌++◌, slice}
use pcs_core.Prelude.{
  ℕ, zero, suc, ◌+◌, ◌/◌, ◌%◌, ◌≡◌, refl, Char, String, Bool, ◌==◌, ◌&&◌, ◌||◌, true, false, ltb,
  leb, eqb, if◌then◌else◌,
}
use pcs_core.Prelude.Int.{ℤ, pos, negsuc}
use pcs_core.Json.{
  Value, null, bool, int, float, str, arr, obj, Items, nil, cons, Fields, end, field, truthy,
}
use pcs_core.Host.{Host}

-- A digit below 16.
abbrev digit : ℕ → String
digit n = slice "0123456789abcdef" n (n + 1)

-- The most significant digit comes first. n + 1 rounds are enough, since n / 10 < n.
digits : ℕ → ℕ → String
digits zero n = []
digits (suc f) n =
    let rest = digits f (n / 10) in if ltb n 10 then digit n else rest ++ digit (n % 10)

unfoldable pub decimal : ℕ → String
unfolding digits
decimal n = digits (suc n) n

unfoldable pub int_text : ℤ → String
unfolding decimal
int_text (pos n) = decimal n
int_text (negsuc n) = "-" ++ decimal (suc n)

-- f"{path}[{index}]"
unfoldable pub indexed : String → ℕ → String
unfolding decimal
indexed path index = path ++ ("[" ++ (decimal index ++ "]"))

-- The characters that the encoder of the json module replaces.
escape_char : Char → String
escape_char c =
    let n = code c in
    if eqb n 34
    then "\\\""
    else if eqb n 92
    then "\\\\"
    else if eqb n 10
    then "\\n"
    else if eqb n 13
    then "\\r"
    else if eqb n 9
    then "\\t"
    else if eqb n 8
    then "\\b"
    else if eqb n 12
    then "\\f"
    else if ltb n 32
    then "\\u00" ++ digit (n / 16) ++ digit (n % 16)
    else c ∷ []

escape : String → String
unfolding escape_char
escape [] = []
escape (c ∷ s) = escape_char c ++ escape s

pub quote : String → String
unfolding escape
quote s = "\"" ++ escape s ++ "\""

-- float.__repr__ as the encoder uses it: nan and the infinities have names of their own.
float_text : String → String
float_text r =
    if r == "nan"
    then "NaN"
    else if r == "inf"
    then "Infinity"
    else if r == "-inf"
    then "-Infinity"
    else r

-- json.dumps; the lists and dictionaries put the separator in front of all entries but the first.
unfoldable mutual
  unfolding quote int_text float_text

  pub dumps : Value → String
  dumps null = "null"
  dumps (bool true) = "true"
  dumps (bool false) = "false"
  dumps (int n) = int_text n
  dumps (float r) = float_text r
  dumps (str s) = quote s
  dumps (arr vs) = "[" ++ dumps_items "" vs ++ "]"
  dumps (obj fs) = "{" ++ dumps_fields "" fs ++ "}"

  pub dumps_items : String → Items → String
  dumps_items sep nil = ""
  dumps_items sep (cons v vs) = sep ++ dumps v ++ dumps_items "," vs

  pub dumps_fields : String → Fields → String
  dumps_fields sep end = ""
  dumps_fields sep (field k v fs) = sep ++ quote k ++ ":" ++ dumps v ++ dumps_fields "," fs

module _ ⦃py : Host⦄ where
  -- str(value)
  unfoldable pub str_of : Value → String
  unfolding int_text
  str_of (str s) = s
  str_of null = "None"
  str_of (bool true) = "True"
  str_of (bool false) = "False"
  str_of (int n) = int_text n
  str_of v = py.repr v

  -- str(value or default)
  abbrev pub text_or : String → Value → String
  text_or d v = if truthy v then str_of v else d

dumps_sample :
    dumps (obj (field "a\n\"" (arr (cons (int (negsuc 11)) (cons (bool true) nil))) end))
    ≡ "{\"a\\n\\\"\":[-12,true]}"
unfolding dumps
dumps_sample = refl

-- The characters that str.isspace() holds for.
abbrev is_space : Char → Bool
is_space c =
    let n = code c in
    leb 9 n && leb n 13
    || leb 28 n && leb n 32
    || eqb n 133
    || eqb n 160
    || eqb n 5760
    || leb 8192 n && leb n 8202
    || eqb n 8232
    || eqb n 8233
    || eqb n 8239
    || eqb n 8287
    || eqb n 12288

-- `not s.strip()`
unfoldable pub is_blank : String → Bool
is_blank [] = true
is_blank (c ∷ s) = is_space c && is_blank s

-- s.strip()
lstrip : String → String
lstrip [] = []
lstrip (c ∷ s) = let rest = lstrip s in if is_space c then rest else c ∷ s

rstrip : String → String
rstrip [] = []
rstrip (c ∷ s) = let rest = rstrip s in if is_space c && rest == "" then "" else c ∷ rest

unfoldable pub strip : String → String
unfolding lstrip rstrip
strip s = rstrip (lstrip s)
