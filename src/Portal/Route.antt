-- ===== src/Portal/Route.antt =====
-- assets/portal/portal.js, lines 230-240 and 423-470: the roots and the address of a folder.
pub mod Address
use vault_box.Base.{
  ℕ, zero, suc, Bool, true, false, not, ◌&&◌, Option, none, some, if◌then◌else◌, List, [], ◌∷◌,
  ◌++◌, Text, codes, same, take, drop, starts_with, index_of, segments, join, any, keep,
}
use vault_box.Base.Uri.{encode, decode}
use vault_box.Portal.Words.{path_segments}

pub record Root : Type 0 where
  pub id : Text
  pub name : Text
  pub writable : Bool
  -- `available !== false`
  pub available : Bool
  pub is_default : Bool

-- `currentRoot`
unfoldable pub current_root : List Root → Option Text → Option Root
current_root [] id = none
current_root (r ∷ rs) none = none
current_root (r ∷ rs) (some id) =
    let rest = current_root rs (some id) in if same r.id id then some r else rest

unfoldable pub can_write : Option Root → Bool
can_write none = false
can_write (some r) = r.writable && r.available

-- `map` with a function that can throw
unfoldable pub map_all : (Text → Option Text) → List Text → Option (List Text)
map_all f [] = some []
map_all f (s ∷ ss) =
    let rest = map_all f ss in
    elim (f s) [ none ↦ none | some t ↦ elim rest [ none ↦ none | some ts ↦ some (t ∷ ts) ] ]

hash_of : Text → Option (List Text) → Option Text
hash_of root none = none
hash_of root (some parts) = some (codes "#/" ++ root ++ b'/' ∷ join parts)

unfoldable pub build_hash : (root_id path : Text) → Option Text
unfolding encode path_segments map_all hash_of join
build_hash root_id path = elim (encode root_id) [
  | none ↦ none
  | some root ↦
      if same path (codes "/")
      then some (codes "#/" ++ root ++ codes "/")
      else hash_of root (map_all encode (path_segments path))
]

pub record Target : Type 0 where
  pub root_id : Text
  pub path : Text

target_of : Option (List Text) → Option Text → Option Target
target_of (some parts) (some root) = some (record { root_id = root; path = b'/' ∷ join parts })
target_of parts root = none

-- The parts of a hash after "#/", at its first separator.
unfoldable pub cut_at : Option ℕ → Text → Text × Text
cut_at none rest = (rest, [])
cut_at (some cut) rest = (take cut rest, drop (suc cut) rest)

unfoldable pub parse_hash : Text → Option Target
unfolding decode segments starts_with index_of map_all target_of join cut_at
parse_hash hash =
    if not (starts_with hash (codes "#/"))
    then none
    else let rest = drop 2 hash in
      let (root, path) = cut_at (index_of b'/' rest) rest in
      target_of (map_all decode (segments path)) (decode root)

-- What `route` does: nothing, the page without a root, or a folder, at once or with the address
-- replaced by that of the folder.
pub data Routed : Type 0 where
  ignored : Routed
  no_root : Routed
  opened : Target → Routed
  redirected : Target → (hash : Option Text) → Routed

preferred : List Root → Option Root
preferred rs = elim (keep (λ r. r.is_default) rs) [
  | [] ↦ elim rs [ [] ↦ none | r ∷ more ↦ some r ]
  | r ∷ more ↦ some r
]

open_preferred : Option Root → Routed
open_preferred none = no_root
open_preferred (some r) =
    redirected (record { root_id = r.id; path = codes "/" }) (build_hash r.id (codes "/"))

pub is_known : List Root → Target → Bool
is_known rs t = any (λ r. same r.id t.root_id) rs

unfoldable pub route : (signed_in : Bool) → List Root → (hash : Text) → Routed
unfolding preferred open_preferred is_known parse_hash
route signed_in rs hash = if not signed_in then ignored else elim (parse_hash hash) [
  | none ↦ open_preferred (preferred rs)
  | some t ↦ if is_known rs t then opened t else open_preferred (preferred rs)
]

-- `goTo`: the address afterwards, and what `route` does, called at once or by the event that
-- setting the address fires; `none` where the address cannot be written.
unfoldable pub go_to :
    (signed_in : Bool) → List Root → (root_id path : Text) → Option (Text × Routed)
unfolding build_hash route
go_to signed_in rs root_id path = elim (build_hash root_id path) [
  | none ↦ none
  | some hash ↦ some (hash, route signed_in rs hash)
]
