-- ===== src/Base/Chars/Laws.antt =====
-- Laws of the text methods: prefixes, the last separator, splitting and joining, decimals.
use Prim.Native.Nat.{ℕ, zero, suc, ◌+◌, ◌-◌, ◌*◌, ◌/◌, ◌<◌}
use mathlib.Core.Path.{◌≡◌, refl, sym, ap, ◌∙◌}
use mathlib.Core.Logic.{◌≢◌, inl, inr}
use mathlib.Core.Bool.{true, false}
use mathlib.Core.Option.{none, some}
use mathlib.Core.List.{[], ◌∷◌, ◌++◌}
use native.Mathlib.Omega.{arith}
use vault_box.Base.Tests.{ltb, Bool-cases}
use vault_box.Base.Lists.{length, drop}
use vault_box.Base.Chars.{
  Text, IsFree, starts_with, last_index_of, decimal, decimal_fuel, number, number_from, has_char,
  index_of,
}

pub starts_with-append : (t r : Text) → starts_with (t ++ r) t ≡ true
unfolding starts_with
starts_with-append [] r = refl
starts_with-append (c ∷ t) r = ground (arith, starts_with-append t r)

pub append-drop_of_starts_with : (s t : Text) → starts_with s t ≡ true → s ≡ t ++ drop (length t) s
unfolding starts_with
append-drop_of_starts_with s [] h = refl
append-drop_of_starts_with [] (d ∷ t) h = cc
append-drop_of_starts_with (c ∷ s) (d ∷ t) h = ground (arith, append-drop_of_starts_with s t)

pub last_index_of-eq-none : (c : ℕ) (s : Text) → IsFree c s → last_index_of c s ≡ none
unfolding last_index_of
last_index_of-eq-none c [] h = refl
last_index_of-eq-none c (d ∷ s) (p, h) = rw (last_index_of-eq-none c s h) (ground arith)

pub last_index_of-append :
    (c : ℕ) (s n : Text) → IsFree c n → last_index_of c (s ++ c ∷ n) ≡ some (length s)
unfolding last_index_of
last_index_of-append c [] n h = rw (last_index_of-eq-none c n h) (ground arith)
last_index_of-append c (d ∷ s) n h = rw (last_index_of-append c s n h) refl

pub append_cancel_left : (s t u : Text) → s ++ t ≡ s ++ u → t ≡ u
append_cancel_left [] t u h = h
append_cancel_left (c ∷ s) t u h = append_cancel_left s t u (ground arith)

-- Two texts free of `c` that agree up to the first `c` are equal.
pub append_inj_of_IsFree :
    (c : ℕ) (m n r s : Text) → IsFree c m → IsFree c n → m ++ c ∷ r ≡ n ++ c ∷ s → m ≡ n
append_inj_of_IsFree c [] [] r s hm hn e = refl
append_inj_of_IsFree c [] (d ∷ n) r s hm (p, hn) e = ground arith
append_inj_of_IsFree c (d ∷ m) [] r s (p, hm) hn e = ground arith
append_inj_of_IsFree c (d ∷ m) (b ∷ n) r s (p, hm) (q, hn) e =
    ground (arith, append_inj_of_IsFree c m n r s hm hn)

pub IsFree-ne-append : (c : ℕ) (m n s : Text) → IsFree c m → m ≢ n ++ c ∷ s
IsFree-ne-append c [] [] s h e = cc
IsFree-ne-append c [] (d ∷ n) s h e = cc
IsFree-ne-append c (b ∷ m) [] s (p, h) e = ground arith
IsFree-ne-append c (b ∷ m) (d ∷ n) s (p, h) e = IsFree-ne-append c m n s h (ground arith)

pub has_char-eq-false : (c : ℕ) (s : Text) → has_char c s ≡ false → IsFree c s
has_char-eq-false c [] h = tt
has_char-eq-false c (d ∷ s) h = ground (arith, has_char-eq-false c s)

number_from-append :
    (acc : ℕ) (s : Text) (c : ℕ)
    → number_from acc (s ++ c ∷ []) ≡ number_from acc s * 10 + (c - b'0')
unfolding number_from
number_from-append acc [] c = refl
number_from-append acc (d ∷ s) c = number_from-append (acc * 10 + (d - b'0')) s c

number-decimal_fuel : (f n : ℕ) → n < f → number_from 0 (decimal_fuel f n) ≡ n
unfolding decimal_fuel number_from
number-decimal_fuel zero n h = absurd (omega arith)
number-decimal_fuel (suc f) n h = elim (Bool-cases (ltb n 10)) [
  | inl small ↦ rw small (omega arith)
  | inr large ↦
      rw (large, number_from-append)
        (let ih : number_from 0 (decimal_fuel f (n / 10)) ≡ n / 10 =
            number-decimal_fuel f (n / 10) (ground arith) in
          rw ih (omega arith))
]

-- A number is read back from its decimals, so different numbers have different ones.
pub number-decimal : (n : ℕ) → number (decimal n) ≡ n
unfolding number decimal
number-decimal n = number-decimal_fuel (suc n) n (omega arith)

pub decimal_inj : (m n : ℕ) → decimal m ≡ decimal n → m ≡ n
decimal_inj m n e = sym (number-decimal m) ∙ ap number e ∙ number-decimal n

pub index_of-append : (c : ℕ) (s r : Text) → IsFree c s → index_of c (s ++ c ∷ r) ≡ some (length s)
unfolding index_of
index_of-append c [] r h = ground arith
index_of-append c (d ∷ s) r (p, h) = ground (arith, index_of-append c s r h)
