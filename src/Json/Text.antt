-- ===== src/Json/Text.antt =====
-- Text of template literals, `join`, numbers in decimal, and `trim() === ''`.
use Prim.Native.Nat.{◌/◌, ◌%◌}
use Prim.Native.Char.{code}
use Prim.Native.String
use db_cluster.Prelude.{
  ℕ, zero, suc, String, Bool, true, ◌&&◌, ◌||◌, List, [], ◌∷◌, leb, ltb, nat_beq, if◌then◌else◌,
}

-- `${a}${b}…`
unfoldable pub template : List String → String
template [] = ""
template (s ∷ rest) = String.◌++◌ s (template rest)

-- `parts.join(sep)`
unfoldable pub join : String → List String → String
join sep [] = ""
join sep (s ∷ []) = s
join sep (s ∷ t ∷ rest) = String.◌++◌ s (String.◌++◌ sep (join sep (t ∷ rest)))

digit : ℕ → String
digit zero = "0"
digit (suc zero) = "1"
digit (suc (suc zero)) = "2"
digit (suc (suc (suc zero))) = "3"
digit (suc (suc (suc (suc zero)))) = "4"
digit (suc (suc (suc (suc (suc zero))))) = "5"
digit (suc (suc (suc (suc (suc (suc zero)))))) = "6"
digit (suc (suc (suc (suc (suc (suc (suc zero))))))) = "7"
digit (suc (suc (suc (suc (suc (suc (suc (suc zero)))))))) = "8"
digit _ = "9"

-- the digits of `n`, for fuel of at least `n + 1`
decimal_from : ℕ → ℕ → String
decimal_from zero n = ""
decimal_from (suc fuel) n =
    let front = decimal_from fuel (n / 10) in
    if ltb n 10 then digit n else String.◌++◌ front (digit (n % 10))

-- `String(n)` of a natural number
unfoldable pub decimal : ℕ → String
unfolding decimal_from digit
decimal n = decimal_from (suc n) n

-- White space and line terminators, which `String.prototype.trim` removes.
unfoldable pub is_white_space : ℕ → Bool
is_white_space c =
    (leb 9 c && leb c 13)
    || nat_beq c 32
    || nat_beq c 160
    || nat_beq c 0x1680
    || (leb 0x2000 c && leb c 0x200a)
    || nat_beq c 0x2028
    || nat_beq c 0x2029
    || nat_beq c 0x202f
    || nat_beq c 0x205f
    || nat_beq c 0x3000
    || nat_beq c 0xfeff

-- `s.trim() === ''`
unfoldable pub is_blank : String → Bool
unfolding is_white_space
is_blank String.[] = true
is_blank (String.◌∷◌ c s) = is_white_space (code c) && is_blank s
