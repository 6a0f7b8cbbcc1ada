-- ===== src/Base/Text.antt =====
-- Text as JavaScript reads it: truth, equality of optional texts, decimal digits.
use Prim.Native.Nat.{ℕ, zero, suc, ◌/◌, ◌%◌}
use Prim.Native.String.{String, ◌++◌}
use mathlib.Core.Path.{◌≡◌}
use mathlib.Core.Bool.{Bool, true, false, not}
use mathlib.Core.Option.{Option, none, some}
use mathlib.Core.Logic.{◌↔◌}
use text.Mathlib.Text.{◌==◌ as str_eq}
use text.Mathlib.TextEquality.{eq_iff}
use neura_gen.Base.Tests.{ltb}

-- `s === t`
infix 50 ◌=ₛ◌
abbrev pub ◌=ₛ◌ : String → String → Bool
s =ₛ t = str_eq s t

pub =ₛ_iff : (s t : String) → ((s =ₛ t) ≡ true) ↔ (s ≡ t)
=ₛ_iff s t = eq_iff s t

-- The truth of an optional text: an empty text is falsy.
abbrev pub truthy : Option String → Bool
truthy none = false
truthy (some s) = not (s =ₛ "")

-- A nullable column equals a given text.
abbrev pub holds : Option String → String → Bool
holds none s = false
holds (some r) s = r =ₛ s

digit_text : ℕ → String
digit_text zero = "0"
digit_text (suc zero) = "1"
digit_text (suc (suc zero)) = "2"
digit_text (suc (suc (suc zero))) = "3"
digit_text (suc (suc (suc (suc zero)))) = "4"
digit_text (suc (suc (suc (suc (suc zero))))) = "5"
digit_text (suc (suc (suc (suc (suc (suc zero)))))) = "6"
digit_text (suc (suc (suc (suc (suc (suc (suc zero))))))) = "7"
digit_text (suc (suc (suc (suc (suc (suc (suc (suc zero)))))))) = "8"
digit_text _ = "9"

-- The decimal digits of `n`, for fuel above it.
decimal : ℕ → ℕ → String
decimal zero n = ""
decimal (suc fuel) n = elim (ltb n 10) [
  | true ↦ digit_text n
  | false ↦ decimal fuel (n / 10) ++ digit_text (n % 10)
]

-- `String(n)` of a natural number.
unfoldable pub show : ℕ → String
unfolding decimal digit_text
show n = decimal (suc n) n
