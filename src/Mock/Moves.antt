-- ===== src/Mock/Moves.antt =====
-- tool/portal_mock_server.js, lines 311-371: renaming, moving, copying and deleting.
pub mod Below
pub mod Relocate
pub mod Subtree
pub mod Numbering
pub mod Batch
pub mod Onto
pub mod Invariant
use vault_box.Base.{
  ℕ, zero, suc, ◌+◌, ◌-◌, ◌==◌, Bool, true, false, not, ◌&&◌, ◌||◌, Option, none, some,
  if◌then◌else◌, List, [], ◌∷◌, ◌++◌, map, length, take, drop, any, Text, codes, same, starts_with,
  decimal, last_index_of,
}
use vault_box.Base.Dict
use vault_box.Mock.Tree.{Tree, Node, dir, file, name_of, parent_of, slash}
use vault_box.Mock.Server.{Status, completed, skipped, failed, Result}

-- `k === p || k.startsWith(p + "/")`
abbrev pub under : Text → Text → Bool
under p k = same k p || starts_with k (p ++ slash)

-- One round of the loops over the keys. `none` cannot be: the key is one of those that the loop
-- started with, and only its own round deletes it.
pub relocate_key : (Node → Node) → Bool → Text → Text → Text → Option Node → Tree → Tree
relocate_key change remove p target k none tree = tree
relocate_key change remove p target k (some n) tree =
    let placed = Dict.set (target ++ drop (length p) k) (change n) tree in
    if remove then Dict.delete k placed else placed

-- `for (const k of [...tree.keys()])`, as the rename, move, copy and delete actions have it: each
-- key under `p` is set under `target` with its node, changed, and deleted if `remove` says so.
unfoldable pub relocate : (Node → Node) → Bool → Text → Text → List Text → Tree → Tree
unfolding relocate_key
relocate change remove p target [] tree = tree
relocate change remove p target (k ∷ ks) tree =
    relocate change remove p target ks
      (if under p k then relocate_key change remove p target k (Dict.get k tree) tree else tree)

-- `{ dir: copy.dir, data: copy.data, mtime: new Date() }`
abbrev pub touch : ℕ → Node → Node
touch now (dir m) = dir now
touch now (file b m) = file b now

-- `(parent === "/" ? "" : parent) + "/" + name`
abbrev pub child_of : Text → Text → Text
child_of parent name = (if same parent slash then [] else parent) ++ b'/' ∷ name

abbrev split_at : Text → Option ℕ → Text × Text
split_at name none = (name, [])
split_at name (some i) = (take i name, drop i name)

-- The name without its extension, and the extension with its dot, or "".
abbrev pub split_name : Text → Text × Text
split_name name = split_at name (last_index_of b'.' name)

-- The line ends that `.` does not match in a regular expression.
abbrev pub has_line_end : Text → Bool
has_line_end = any (λ c. c == 10 || c == 13 || c == 0x2028 || c == 0x2029)

abbrev pub numbered : Text → Text → ℕ → Text
numbered stem ext i = stem ++ (codes " (" ++ (decimal i ++ b')' ∷ ext))

-- `while (tree.has(… i …)) i++`, with the keys of the tree as fuel.
unfoldable pub free_index : ℕ → ℕ → (ℕ → Text) → Tree → ℕ
free_index zero i name tree = i
free_index (suc f) i name tree =
    let next = free_index f (i + 1) name tree in if Dict.has (name i) tree then next else i

pub data Policy : Type 0 where
  skip keep_both replace : Policy

pub data Action : Type 0 where
  move copy delete : Action

-- Where an item goes: nowhere, to a key, or to an exception, as the name does not match.
pub data Placement : Type 0 where
  stay : Placement
  to : Text → Placement
  no_match : Placement

keep_both_target : Text → Text × Text → Tree → Placement
keep_both_target dest (stem, ext) tree =
    let name = numbered (child_of dest stem) ext in
    if has_line_end stem then no_match else to (name (free_index (suc (length tree)) 1 name tree))

unfoldable pub placement : Text → Policy → Text → Tree → Placement
unfolding keep_both_target free_index
placement dest policy s tree =
    let target = child_of dest (name_of s) in
    if Dict.has target tree && not (same s target)
    then elim policy [
      | skip ↦ stay
      | keep_both ↦ keep_both_target dest (split_name (name_of s)) tree
      | replace ↦ to target
    ]
    else to target

abbrev done : Text → Text → Result
done s target = record { source = s; status = completed; target = some target; message = none }

pub place : Bool → ℕ → Text → Placement → Tree → Tree × Option Result
place remove now s stay tree = (
  tree,
  some (record {
    source = s;
    status = skipped;
    target = none;
    message = some (codes "Already exists at destination");
  }),
)
place remove now s (to target) tree =
    (relocate (touch now) remove s target (Dict.keys tree) tree, some (done s target))
place remove now s no_match tree = (tree, none)

abbrev pub bin_of : Text → Text → Text
bin_of uuid s = codes "/.vaultbox/recycle/" ++ (uuid ++ (codes "__" ++ name_of s))

-- One item of a batch; the result is `none` for an exception.
pub batch_item : Action → Text → Policy → ℕ → Text → Text → Tree → Tree × Option Result
batch_item action dest policy now uuid s tree =
    if Dict.has s tree
    then elim action [
      | move ↦ place true now s (placement dest policy s tree) tree
      | copy ↦ place false now s (placement dest policy s tree) tree
      | delete ↦ (
        relocate (λ n. n) true s (bin_of uuid s) (Dict.keys tree) tree,
        some (done s (bin_of uuid s)),
      )
    ]
    else (
      tree,
      some (record {
        source = s;
        status = failed;
        target = none;
        message = some (codes "Couldn't find this item");
      }),
    )

abbrev pub cons_result : Result → Tree × Option (List Result) → Tree × Option (List Result)
cons_result r (tree, none) = (tree, none)
cons_result r (tree, some rs) = (tree, some (r ∷ rs))

-- The loop over the sources. The `i`-th call of `randomUUID` gives `uuid i`; an exception stops the
-- loop and leaves what was done.
unfoldable pub batch_loop :
    Action → Text → Policy → ℕ → (ℕ → Text) → ℕ → List Text → Tree → Tree × Option (List Result)
unfolding batch_item place placement relocate
batch_loop action dest policy now uuid i [] tree = (tree, some [])
batch_loop action dest policy now uuid i (s ∷ sources) tree =
    let (next, result) = batch_item action dest policy now (uuid i) s tree in
    elim result [
      | none ↦ (next, none)
      | some r ↦ cons_result r (batch_loop action dest policy now uuid (i + 1) sources next)
    ]

abbrev has_status : Status → Result → Bool
has_status completed r = elim r.status [ completed ↦ true | _ ↦ false ]
has_status skipped r = elim r.status [ skipped ↦ true | _ ↦ false ]
has_status failed r = elim r.status [ failed ↦ true | _ ↦ false ]

-- `results.filter((r) => r.status === st).length`
unfoldable pub count_status : Status → List Result → ℕ
count_status st [] = 0
count_status st (r ∷ rs) = (if has_status st r then 1 else 0) + count_status st rs
