-- ===== src/Base/Decimal.antt =====
-- The decimal notation of a number, as `{}` formats it.
use micro_joule_attribution.Base.Texts.{Text}
use micro_joule_attribution.Base.Tests.{ltb, if◌then◌else◌}
use Prim.Native.Nat.{ℕ, zero, suc, ◌+◌, ◌/◌, ◌%◌}
use mathlib.Core.List.{[], ◌∷◌}

-- The digits of `n` before those of `rest`. A number below `10 ^ rounds` is written out.
unfoldable pub write_digits : ℕ → ℕ → Text → Text
write_digits zero n rest = rest
write_digits (suc rounds) n rest =
    let more = write_digits rounds (n / 10) ((b'0' + n % 10) ∷ rest) in
    if ltb n 10 then (b'0' + n) ∷ rest else more

-- A u64 has twenty digits at most.
unfoldable pub decimal : ℕ → Text
unfolding write_digits
decimal n = write_digits 20 n []
