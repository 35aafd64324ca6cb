-- ===== src/Integrity/Text.antt =====
-- `JSON.stringify` of a string, and the order in which `Array.prototype.sort` puts strings.
use Prim.Native.Nat.{◌/◌, ◌%◌, ◌-◌}
use Prim.Native.Char.{Char, code}
use Prim.Native.String
use db_cluster.Prelude.{
  ℕ, zero, suc, ◌+◌, String, Bool, true, false, List, [], ◌∷◌, leb, ltb, nat_beq, if◌then◌else◌,
}

-- the text at an index
text_at : List String → ℕ → String
text_at [] n = ""
text_at (s ∷ rest) zero = s
text_at (s ∷ rest) (suc n) = text_at rest n

-- a hexadecimal digit
hex : ℕ → String
unfolding text_at
hex n =
    text_at
      ("0" ∷ "1" ∷ "2" ∷ "3" ∷ "4" ∷ "5" ∷ "6" ∷ "7" ∷ "8" ∷ "9" ∷ "a" ∷ "b" ∷ "c" ∷ "d" ∷ "e" ∷ "f"
        ∷ [])
      n

-- a character between quotes
unfoldable pub escape : Char → String
unfolding hex
escape c =
    let n = code c in
    if nat_beq n b'"'
    then "\\\""
    else if nat_beq n 92
    then "\\\\"
    else if nat_beq n 8
    then "\\b"
    else if nat_beq n 9
    then "\\t"
    else if nat_beq n 10
    then "\\n"
    else if nat_beq n 12
    then "\\f"
    else if nat_beq n 13
    then "\\r"
    else if ltb n 32
    then String.◌++◌ "\\u00" (String.◌++◌ (hex (n / 16)) (hex (n % 16)))
    else String.◌∷◌ c String.[]

escape_all : String → String
escape_all String.[] = ""
escape_all (String.◌∷◌ c s) = String.◌++◌ (escape c) (escape_all s)

-- `JSON.stringify(text)`
unfoldable pub quote : String → String
unfolding escape_all
quote s = String.◌++◌ "\"" (String.◌++◌ (escape_all s) "\"")

-- the UTF-16 code units of a text
unfoldable pub utf16 : String → List ℕ
utf16 String.[] = []
utf16 (String.◌∷◌ c s) =
    let n = code c in
    let rest = utf16 s in
    if leb 0x10000 n
    then (0xd800 + (n - 0x10000) / 0x400) ∷ (0xdc00 + (n - 0x10000) % 0x400) ∷ rest
    else n ∷ rest

-- no later in the order of the code units
unfoldable pub units_le : List ℕ → List ℕ → Bool
units_le [] ys = true
units_le (x ∷ xs) [] = false
units_le (x ∷ xs) (y ∷ ys) = let rest = units_le xs ys in if nat_beq x y then rest else ltb x y
