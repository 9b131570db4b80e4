-- ===== src/Base/Chars/Decimals.antt =====
-- Decimals are runs of digits.
use Prim.Native.Nat.{ℕ, zero, suc, ◌/◌}
use mathlib.Core.Path.{◌≡◌, refl}
use mathlib.Core.Logic.{◌≢◌, inl, inr}
use mathlib.Core.Bool.{true}
use mathlib.Core.List.{[], ◌∷◌, ◌++◌}
use native.Mathlib.Omega.{arith}
use vault_box.Base.Tests.{ltb, Bool-cases}
use vault_box.Base.Lists.{All, All-append}
use vault_box.Base.Chars.{Text, decimal, decimal_fuel, is_digit, IsFree, non_empty}

abbrev pub IsDigits : Text → Type 0
IsDigits = All (λ c. is_digit c ≡ true)

decimal_fuel-IsDigits : (f n : ℕ) → IsDigits (decimal_fuel f n)
unfolding decimal_fuel
decimal_fuel-IsDigits zero n = tt
decimal_fuel-IsDigits (suc f) n = elim (Bool-cases (ltb n 10)) [
  | inl small ↦ rw small (ground arith, tt)
  | inr large ↦ rw large (
      All-append (λ c. is_digit c ≡ true) (decimal_fuel f (n / 10)) _
        (decimal_fuel-IsDigits f (n / 10)) (ground arith, tt))
]

pub decimal-IsDigits : (n : ℕ) → IsDigits (decimal n)
unfolding decimal
decimal-IsDigits n = decimal_fuel-IsDigits (suc n) n

append-non_empty : (s : Text) (c : ℕ) → non_empty (s ++ c ∷ []) ≡ true
append-non_empty [] c = refl
append-non_empty (d ∷ s) c = refl

pub decimal-non_empty : (n : ℕ) → non_empty (decimal n) ≡ true
unfolding decimal decimal_fuel
decimal-non_empty n = elim (Bool-cases (ltb n 10)) [
  | inl small ↦ rw small refl
  | inr large ↦ rw large (append-non_empty (decimal_fuel n (n / 10)) _)
]

pub IsDigits-IsFree : (c : ℕ) (s : Text) → is_digit c ≢ true → IsDigits s → IsFree c s
IsDigits-IsFree c [] h d = tt
IsDigits-IsFree c (x ∷ s) h (p, d) = ((λ e. ground arith), IsDigits-IsFree c s h d)
