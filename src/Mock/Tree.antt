-- ===== src/Mock/Tree.antt =====
-- tool/portal_mock_server.js, lines 26-34 and 146-169: the in-memory file tree, paths, listings.
pub mod Names
pub mod Paths
pub mod Sorting
pub mod Wellformed
use vault_box.Base.{
  ℕ, suc, ◌+◌, Bool, true, false, not, ◌&&◌, ◌||◌, Option, none, some, if◌then◌else◌, List, [], ◌∷◌,
  ◌++◌, map, length, take, drop, keep, String, ltb, ◌==◌, Text, codes, same, non_empty, has_char,
  starts_with, to_lower, split, segments, join, last_index_of,
}
use vault_box.Base.Dict
use vault_box.Base.Dict.{Dict}

-- `{dir, data, mtime}`: a directory has no `data`. The bytes of a `Buffer` are numbers.
pub data Node : Type 0 where
  dir : (mtime : ℕ) → Node
  file : (bytes : List ℕ) (mtime : ℕ) → Node

abbrev pub Tree : Type 0
Tree = Dict Node

abbrev pub is_dir_node : Node → Bool
is_dir_node (dir m) = true
is_dir_node (file b m) = false

-- `null`, the text "reserved", or a path.
pub data Parsed : Type 0 where
  null : Parsed
  reserved : Parsed
  at : Text → Parsed

abbrev pub slash : Text
slash = codes "/"

-- The loop over the parts, which stops at "..". The test for "" stands second here: "" is not "..".
gather : List Text → List Text → Option (List Text)
gather segs [] = some segs
gather segs (part ∷ parts) =
    if same part (codes "..")
    then none
    else gather (if non_empty part then segs ++ part ∷ [] else segs) parts

unfoldable pub is_reserved : List Text → Bool
is_reserved [] = false
is_reserved (seg ∷ segs) = same (to_lower seg) (codes ".vaultbox")

-- `p.replace(/\\/g, "/")`
forward : Text → Text
forward = map (λ c. if c == b'\\' then b'/' else c)

parse_segs : Option (List Text) → Parsed
parse_segs none = null
parse_segs (some segs) = if is_reserved segs then reserved else at (b'/' ∷ join segs)

-- `none` is the argument undefined or null.
unfoldable pub parse_path : Option Text → Parsed
unfolding gather is_reserved forward parse_segs split join to_lower
parse_path none = parse_segs (gather [] (split b'/' slash))
parse_path (some raw) = parse_segs (gather [] (split b'/' (forward raw)))

abbrev parent_at : Text → Option ℕ → Text
parent_at p none = slash
parent_at p (some i) = if i == 0 then slash else take i p

unfoldable pub parent_of : Text → Text
unfolding last_index_of
parent_of p = parent_at p (last_index_of b'/' p)

abbrev name_at : Text → Option ℕ → Text
name_at p none = p
name_at p (some i) = drop (suc i) p

unfoldable pub name_of : Text → Text
unfolding last_index_of
name_of p = name_at p (last_index_of b'/' p)

abbrev dir_found : Option Node → Bool
dir_found none = false
dir_found (some n) = is_dir_node n

unfoldable pub is_dir : Text → Tree → Bool
is_dir p tree = same p slash || dir_found (Dict.get p tree)

pub record Entry : Type 0 where
  pub name : Text
  pub is_directory : Bool
  pub size : Option ℕ
  pub modified : ℕ

abbrev pub entry_of : Text → Node → Entry
entry_of p (dir m) = record { name = name_of p; is_directory = true; size = none; modified = m }
entry_of p (file b m) = record {
  name = name_of p;
  is_directory = false;
  size = some (length b);
  modified = m;
}

abbrev entry_found : Text → Option Node → Option Entry
entry_found p none = none
entry_found p (some n) = some (entry_of p n)

-- `none` where `tree.get(p)` is undefined and its fields are read: a TypeError.
unfoldable pub entry_json : Tree → Text → Option Entry
entry_json tree p = entry_found p (Dict.get p tree)

-- The order of `sort()`: by code units.
unfoldable pub text_leb : Text → Text → Bool
text_leb [] t = true
text_leb (c ∷ s) [] = false
text_leb (c ∷ s) (d ∷ t) = ltb c d || (c == d && text_leb s t)

insert : Text → List Text → List Text
insert x [] = x ∷ []
insert x (y ∷ ys) = if text_leb x y then x ∷ y ∷ ys else y ∷ insert x ys

-- The keys of a `Map` are distinct, so every sorting algorithm gives this list.
unfoldable pub sort : List Text → List Text
unfolding insert text_leb
sort [] = []
sort (x ∷ xs) = insert x (sort xs)

abbrev pub prefix_of : Text → Text
prefix_of d = if same d slash then slash else d ++ slash

abbrev pub is_child : Text → Text → Bool
is_child d k =
    not (same k d)
    && starts_with k (prefix_of d)
    && not (has_char b'/' (drop (length (prefix_of d)) k))

unfoldable pub children : Tree → Text → List Text
unfolding sort Dict.keys starts_with
children tree d = sort (keep (is_child d) (Dict.keys tree))

-- The directories above the seeded path, from the first part on.
seed_dirs : ℕ → Text → List Text → Tree → Tree
seed_dirs now up [] tree = tree
seed_dirs now up (part ∷ []) tree = tree
seed_dirs now up (part ∷ next ∷ parts) tree =
    let here = up ++ b'/' ∷ part in
    seed_dirs now here (next ∷ parts)
      (if Dict.has here tree then tree else Dict.set here (dir now) tree)

abbrev seeded : ℕ → Option (List ℕ) → Node
seeded now none = dir now
seeded now (some bytes) = file bytes now

-- `content` is `none` for null.
unfoldable pub seed : ℕ → Text → Option (List ℕ) → Tree → Tree
unfolding seed_dirs segments Dict.set Dict.get
seed now p content tree = Dict.set p (seeded now content) (seed_dirs now [] (segments p) tree)
