-- ===== src/Prelude/Utf8.antt =====
-- Texts that are valid UTF-8, by RFC 3629.
use Prim.Native.Nat.{ℕ, zero, suc}
use mathlib.Core.List.{[], ◌∷◌}
use mathlib.Core.Bool.{Bool, true, false, ◌&&◌}
use randfiletree.Prelude.Tests.{ltb, leb, ◌==◌, if◌then◌else◌}
use randfiletree.Prelude.Text.{Bytes}

-- Of a first byte: whether there is such a byte, how many follow it, and the bounds of the next.
unfoldable pub lead : ℕ → Bool × ℕ × ℕ × ℕ
lead c =
    if ltb c 128
    then (true, 0, 128, 191)
    else if leb 194 c && leb c 223
    then (true, 1, 128, 191)
    else if c == 224
    then (true, 2, 160, 191)
    else if c == 237
    then (true, 2, 128, 159)
    else if leb 225 c && leb c 239
    then (true, 2, 128, 191)
    else if c == 240
    then (true, 3, 144, 191)
    else if leb 241 c && leb c 243
    then (true, 3, 128, 191)
    else if c == 244
    then (true, 3, 128, 143)
    else (false, 0, 128, 191)

-- With the bytes of a character that are still to come, the next one within the bounds.
unfoldable pub continues : ℕ → ℕ → ℕ → Bytes → Bool
unfolding lead
continues zero low high [] = true
continues (suc n) low high [] = false
continues (suc n) low high (c ∷ s) = leb low c && leb c high && continues n 128 191 s
continues zero low high (c ∷ s) =
    let (known, n, from, to) = lead c in known && continues n from to s

unfoldable pub is_utf8 : Bytes → Bool
unfolding continues
is_utf8 s = continues 0 128 191 s
