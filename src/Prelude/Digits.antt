-- ===== src/Prelude/Digits.antt =====
-- Numbers as text: the verbs `%d`, `%0nd` and `%0nx` of `fmt` on natural numbers.
use Prim.Native.Nat.{ℕ, zero, suc, ◌+◌, ◌-◌, ◌/◌, ◌%◌}
use mathlib.Core.List.{[], ◌∷◌, ◌++◌}
use randfiletree.Prelude.Tests.{ltb, if◌then◌else◌}
use randfiletree.Prelude.Lists.{length}
use randfiletree.Prelude.Text.{Bytes}

unfoldable pub digit : ℕ → ℕ
digit d = if ltb d 10 then 48 + d else 87 + d

-- Each round divides by the base, so `n` rounds are enough.
unfoldable pub digits : ℕ → ℕ → ℕ → Bytes
unfolding digit
digits zero base n = digit (n % base) ∷ []
digits (suc fuel) base n =
    let front = digits fuel base (n / base) in
    if ltb n base then digit n ∷ [] else front ++ (digit (n % base) ∷ [])

unfoldable pub decimal : ℕ → Bytes
unfolding digits
decimal n = digits n 10 n

unfoldable pub hexadecimal : ℕ → Bytes
unfolding digits
hexadecimal n = digits n 16 n

unfoldable pub zeros : ℕ → Bytes
zeros zero = []
zeros (suc n) = 48 ∷ zeros n

unfoldable pub pad_zeros : ℕ → Bytes → Bytes
unfolding zeros
pad_zeros width s = zeros (width - length s) ++ s
