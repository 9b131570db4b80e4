-- ===== src/Base/Dict.antt =====
-- A JavaScript `Map` with text keys, as its entries in insertion order.
use mathlib.Core.Path.{◌≡◌, refl}
use mathlib.Core.Bool.{Bool, true, false}
use mathlib.Core.Option.{Option, none, some}
use mathlib.Core.List.{List, [], ◌∷◌}
use native.Mathlib.Omega.{arith}
use vault_box.Base.Tests.{if◌then◌else◌}
use vault_box.Base.Chars.{Text, same, one_of}

abbrev pub Dict {ℓ} : Type ℓ → Type ℓ
Dict V = List (Text × V)

module _ {ℓ} {V : Type ℓ} where
  -- `m.get(k)`, with `none` for undefined
  unfoldable pub get : Text → Dict V → Option V
  get k [] = none
  get k ((j, v) ∷ d) = if same k j then some v else get k d

  abbrev is_some : Option V → Bool
  is_some none = false
  is_some (some v) = true

  -- `m.has(k)`
  abbrev pub has : Text → Dict V → Bool
  has k d = is_some (get k d)

  -- `m.set(k, v)`: a key that is there keeps its place.
  unfoldable pub set : Text → V → Dict V → Dict V
  set k v [] = (k, v) ∷ []
  set k v ((j, w) ∷ d) = if same k j then (k, v) ∷ d else (j, w) ∷ set k v d

  -- `m.delete(k)`
  unfoldable pub delete : Text → Dict V → Dict V
  delete k [] = []
  delete k ((j, w) ∷ d) = let rest = delete k d in if same k j then rest else (j, w) ∷ rest

  -- `[...m.keys()]`
  unfoldable pub keys : Dict V → List Text
  keys [] = []
  keys ((j, w) ∷ d) = j ∷ keys d

  -- No key stands twice, as in every `Map`.
  abbrev pub NodupKeys : Dict V → Type ℓ
  NodupKeys [] = Unit
  NodupKeys ((k, _) ∷ d) = (get k d ≡ none) × NodupKeys d

  pub get-set :
      (j k : Text) (v : V) (d : Dict V) → get j (set k v d) ≡ (if same j k then some v else get j d)
  unfolding get set
  get-set j k v [] = refl
  get-set j k v ((i, w) ∷ d) = ground (arith, get-set j k v d)

  pub get-delete :
      (j k : Text) (d : Dict V) → get j (delete k d) ≡ (if same j k then none else get j d)
  unfolding get delete
  get-delete j k [] = ground arith
  get-delete j k ((i, w) ∷ d) = ground (arith, get-delete j k d)

  pub set-NodupKeys : (k : Text) (v : V) (d : Dict V) → NodupKeys d → NodupKeys (set k v d)
  unfolding get set
  set-NodupKeys k v [] h = (refl, tt)
  set-NodupKeys k v ((j, w) ∷ d) (fresh, h) = ground (arith, set-NodupKeys k v d h, get-set j k v d)

  pub delete-NodupKeys : (k : Text) (d : Dict V) → NodupKeys d → NodupKeys (delete k d)
  unfolding get delete
  delete-NodupKeys k [] h = tt
  delete-NodupKeys k ((j, w) ∷ d) (fresh, h) =
      ground (arith, delete-NodupKeys k d h, get-delete j k d)

  -- The keys are exactly the texts that `get` finds.
  pub one_of-keys : (k : Text) (d : Dict V) → one_of k (keys d) ≡ has k d
  unfolding get keys
  one_of-keys k [] = refl
  one_of-keys k ((j, w) ∷ d) = ground (arith, one_of-keys k d)
