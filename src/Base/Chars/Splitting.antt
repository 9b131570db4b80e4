-- ===== src/Base/Chars/Splitting.antt =====
-- Splitting a text at a separator and joining the parts.
use Prim.Native.Nat.{ℕ}
use mathlib.Core.Path.{◌≡◌, refl}
use mathlib.Core.Logic.{◌≢◌}
use mathlib.Core.List.{List, [], ◌∷◌, ◌++◌}
use native.Mathlib.Omega.{arith}
use vault_box.Base.Lists.{All}
use vault_box.Base.Chars.{Text, IsFree, split, push_head, join, non_empty, segments, true, keep}

split_free : (c : ℕ) (m : Text) → IsFree c m → split c m ≡ m ∷ []
unfolding split
split_free c [] h = refl
split_free c (d ∷ m) (p, h) = rw (split_free c m h) (ground arith)

split-append : (c : ℕ) (m r : Text) → IsFree c m → split c (m ++ c ∷ r) ≡ m ∷ split c r
unfolding split
split-append c [] r h = ground arith
split-append c (d ∷ m) r (p, h) = rw (split-append c m r h) (ground arith)

-- The parts are split off again, if they hold no separator and there is at least one.
pub split-join :
    (m : Text) (ms : List Text)
    → IsFree b'/' m
    → All (IsFree b'/') ms
    → split b'/' (join (m ∷ ms)) ≡ m ∷ ms
unfolding join
split-join m [] h _ = split_free b'/' m h
split-join m (n ∷ ms) h (k, ks) = rw (split-append b'/' m (join (n ∷ ms)) h, split-join n ms k ks)

module _ (P : ℕ → Type 0) where
  push_head-All :
      (d : ℕ) (parts : List Text) → P d → All (All P) parts → All (All P) (push_head d parts)
  unfolding push_head
  push_head-All d [] p h = ((p, tt), tt)
  push_head-All d (m ∷ parts) p (q, h) = ((p, q), h)

  -- What holds of every code unit but the separators holds of those of the parts.
  pub split-All : (c : ℕ) (s : Text) → All (λ d. d ≢ c → P d) s → All (All P) (split c s)
  unfolding split
  split-All c [] h = (tt, tt)
  split-All c (d ∷ s) (p, h) = ground (arith, split-All c s h, push_head-All d (split c s))

pub split-IsFree : (c : ℕ) (s : Text) → All (IsFree c) (split c s)
split-IsFree c s = split-All (λ d. d ≢ c) c s (every s)
  where
    every : (t : Text) → All (λ d. d ≢ c → d ≢ c) t
    every [] = tt
    every (d ∷ t) = (λ h. h, every t)

keep-non_empty : (ms : List Text) → All (λ m. non_empty m ≡ true) ms → keep non_empty ms ≡ ms
keep-non_empty [] h = refl
keep-non_empty (m ∷ ms) (p, h) = rw (p, keep-non_empty ms h) refl

-- The parts of a path, with or without a separator in front.
pub segments-join :
    (ms : List Text)
    → All (IsFree b'/') ms
    → All (λ m. non_empty m ≡ true) ms
    → segments (join ms) ≡ ms
unfolding segments join split
segments-join [] h n = refl
segments-join (m ∷ ms) (h, hs) n = rw (split-join m ms h hs) (keep-non_empty (m ∷ ms) n)

pub segments-slash_join :
    (ms : List Text)
    → All (IsFree b'/') ms
    → All (λ m. non_empty m ≡ true) ms
    → segments (b'/' ∷ join ms) ≡ ms
unfolding segments split
segments-slash_join ms h n = ground (arith, segments-join ms h n)
