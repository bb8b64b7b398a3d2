-- ===== src/Base/Json/Quoting.antt =====
-- The quoted form of a text and of an array of texts.
use Prim.Native.Nat.{ℕ, ◌+◌, ◌/◌, ◌%◌}
use mathlib.Core.Bool.{◌&&◌, ◌||◌}
use mathlib.Core.List.{List, [], ◌∷◌, ◌++◌}
use rt_test.Base.Tests.{ltb, leb, nat_beq, if◌then◌else◌}
use rt_test.Base.Equality.{Text}

-- A lower-case hexadecimal digit.
unfoldable pub hex : ℕ → ℕ
hex d = if ltb d 10 then d + b'0' else d + 87

-- `\uXXXX`.
unfoldable pub unicode_escape : ℕ → Text
unicode_escape c =
    b'\\' ∷ b'u' ∷ hex (c / 4096) ∷ hex (c / 256 % 16) ∷ hex (c / 16 % 16) ∷ hex (c % 16) ∷ []

-- The letter of a two-character escape, 0 for none.
unfoldable pub short_escape : ℕ → ℕ
short_escape c =
    if nat_beq c 8
    then b'b'
    else (if nat_beq c 9
        then b't'
        else (if nat_beq c 10
            then b'n'
            else (if nat_beq c 12 then b'f' else (if nat_beq c 13 then b'r' else 0))))

unfoldable pub escape : ℕ → Text
escape c =
    if nat_beq c b'"' || nat_beq c b'\\'
    then b'\\' ∷ c ∷ []
    else (if ltb 0 (short_escape c)
        then b'\\' ∷ short_escape c ∷ []
        else (if ltb c 32 || (leb 0xd800 c && leb c 0xdfff) then unicode_escape c else c ∷ []))

unfoldable pub escape_all : Text → Text
escape_all [] = []
escape_all (c ∷ s) = escape c ++ escape_all s

unfoldable pub quote : Text → Text
unfolding escape_all escape short_escape unicode_escape hex
quote s = b'"' ∷ escape_all s ++ b'"' ∷ []

-- The elements after the first, each behind its comma, and the closing bracket.
unfoldable pub quote_rest : List Text → Text
quote_rest [] = b']' ∷ []
quote_rest (s ∷ ss) = b',' ∷ quote s ++ quote_rest ss

unfoldable pub quote_list : List Text → Text
unfolding quote_rest quote
quote_list [] = b'[' ∷ b']' ∷ []
quote_list (s ∷ ss) = b'[' ∷ quote s ++ quote_rest ss
