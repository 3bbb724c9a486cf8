-- ===== src/Prelude/Decimal.antt =====
-- Decimal printing of a number, as `std::to_string`, the streams and `%d` do it.
use Prim.Native.Nat.{ℕ, zero, suc, ◌+◌, ◌/◌, ◌%◌}
use mathlib.Core.List.{[], ◌∷◌, ◌++◌}
use topo_llvm.Prelude.Tests.{ltb, if◌then◌else◌}
use topo_llvm.Prelude.Text.{Bytes}
use topo_llvm.Prelude.Int.{ℤ, pos, negsuc}

-- The number itself is fuel enough, since a division by ten makes it smaller.
unfoldable pub digits_from : ℕ → ℕ → Bytes
digits_from zero n = (n + 48) ∷ []
digits_from (suc f) n =
    let more = digits_from f (n / 10) ++ (n % 10 + 48) ∷ [] in
    if ltb n 10 then (n + 48) ∷ [] else more

unfoldable pub decimal : ℕ → Bytes
unfolding digits_from
decimal n = digits_from n n

unfoldable pub decimal_int : ℤ → Bytes
unfolding decimal
decimal_int (pos n) = decimal n
decimal_int (negsuc n) = b'-' ∷ decimal (n + 1)
