-- ===== src/Base/Decimal.antt =====
-- Numbers in decimal notation, as strconv.Itoa and the verb %d write them.
use Prim.Native.Nat.{ℕ, zero, suc, ◌/◌, ◌%◌}
use Prim.Native.String.{String, ◌++◌}
use mathlib.Core.List.{[], ◌∷◌}
use koshi_runtime.Base.Tests.{ltb, if◌then◌else◌}
use koshi_runtime.Base.Lists.{get_or}

abbrev pub digit : ℕ → String
digit d = get_or ("0" ∷ "1" ∷ "2" ∷ "3" ∷ "4" ∷ "5" ∷ "6" ∷ "7" ∷ "8" ∷ "9" ∷ []) d ""

-- Each round takes a digit off, so that the number itself is fuel enough.
unfoldable pub decimal_from : ℕ → ℕ → String → String
decimal_from zero n behind = digit n ++ behind
decimal_from (suc fuel) n behind =
    let longer = decimal_from fuel (n / 10) (digit (n % 10) ++ behind) in
    if ltb n 10 then digit n ++ behind else longer

abbrev pub decimal_text : ℕ → String
decimal_text n = decimal_from n n ""
