-- ===== src/Portal/Folder.antt =====
-- assets/portal/portal.js, lines 564-752: the folder that is shown, its selection and its toolbar.
pub mod Loading
pub mod Order
pub mod Tools
use vault_box.Base.{
  ℕ, suc, same, ◌==◌, Bool, true, false, not, ◌&&◌, Option, none, some, if◌then◌else◌, List, [],
  ◌∷◌, ◌++◌, map, Text, codes, one_of, any, all, keep, non_empty, segments,
}
use vault_box.Mock.Serve.{Property}
use vault_box.Portal.Words.{Kind, other, kind_of, path_segments, join_path}
use vault_box.Portal.Route.{Root, can_write}

pub record Entry : Type 0 where
  pub name : Text
  pub is_directory : Bool
  pub size : Option ℕ

pub record Folder : Type 0 where
  pub path : Text
  pub entries : List Entry
  pub next : Option Text
  pub loading : Bool
  pub error : Option (Property Text)
  pub selected : List Text
  pub load_counter : ℕ

-- `sortEntries`: directories first, then by the collator's order of the names, which `leb_name`
-- stands for: whether it compares two names as not greater.
unfoldable pub entry_leb : (Text → Text → Bool) → Entry → Entry → Bool
entry_leb leb_name a b =
    if a.is_directory
    then (if b.is_directory then leb_name a.name b.name else true)
    else if b.is_directory
    then false
    else leb_name a.name b.name

unfoldable pub insert : (Entry → Entry → Bool) → Entry → List Entry → List Entry
insert le a [] = a ∷ []
insert le a (b ∷ bs) = let rest = insert le a bs in if le a b then a ∷ b ∷ bs else b ∷ rest

-- A stable sort.
unfoldable pub sort_by : (Entry → Entry → Bool) → List Entry → List Entry
unfolding insert
sort_by le [] = []
sort_by le (a ∷ rest) = insert le a (sort_by le rest)

pub record Query : Type 0 where
  pub path : Text
  pub cursor : Option Text

abbrev truthy : Option Text → Option Text
truthy none = none
truthy (some []) = none
truthy (some (c ∷ s)) = some (c ∷ s)

abbrev or_nothing : Option Text → Text
or_nothing none = []
or_nothing (some s) = s

-- `loadDirectory` up to its request: the number of the load, and what is asked for.
unfoldable pub load : (reset : Bool) → Folder → Folder × ℕ × Query
load reset f =
    let mine = suc f.load_counter in
    (
      record f {
        entries = if reset then [] else f.entries;
        next = if reset then none else f.next;
        selected = if reset then [] else f.selected;
        loading = true;
        error = none;
        load_counter = mine;
      },
      mine,
      record { path = f.path; cursor = if reset then none else truthy f.next },
    )

-- What a load gets.
pub data Reply : Type 0 where
  page : List Entry → (next : Option Text) → Reply
  failure : Property Text → Reply

shown : (Text → Text → Bool) → Reply → Folder → Folder
shown leb_name (page es n) f = record f {
  entries = sort_by (entry_leb leb_name) (f.entries ++ es);
  next = n;
  loading = false;
}
shown leb_name (failure e) f = record f { loading = false; error = some e }

unfoldable pub loaded : (Text → Text → Bool) → (mine : ℕ) → Reply → Folder → Folder
unfolding shown sort_by entry_leb
loaded leb_name mine r f = if mine == f.load_counter then shown leb_name r f else f

unfoldable pub selected_entries : Folder → List Entry
selected_entries f = keep (λ e. one_of e.name f.selected) f.entries

-- A set of names, in the order in which they were added.
pub add_name : Text → List Text → List Text
add_name name names = if one_of name names then names else names ++ name ∷ []

pub add_all : List Entry → List Text → List Text
add_all [] names = names
add_all (e ∷ es) names = add_all es (add_name e.name names)

-- The box of a row.
unfoldable pub select : (name : Text) → (checked : Bool) → Folder → Folder
unfolding add_name
select name checked f = record f {
  selected = if checked then add_name name f.selected else keep (λ n. not (same name n)) f.selected;
}

-- The box in the table's head.
unfoldable pub select_all : (checked : Bool) → Folder → Folder
unfolding add_all add_name
select_all checked f = record f { selected = if checked then add_all f.entries f.selected else [] }

pub data Tool : Type 0 where
  upload new_folder refresh preview download rename move copy delete clear : Tool

abbrev is_other : Kind → Bool
is_other other = true
is_other k = false

pub single_tools : List Entry → List Tool
single_tools (e ∷ []) =
    if e.is_directory
    then []
    else if is_other (kind_of e.name)
    then download ∷ []
    else preview ∷ download ∷ []
single_tools es = []

pub rename_tool : List Entry → List Tool
rename_tool (e ∷ []) = rename ∷ []
rename_tool es = []

tools_for : (writable : Bool) → List Entry → List Tool
tools_for writable [] = if writable then upload ∷ new_folder ∷ refresh ∷ [] else refresh ∷ []
tools_for writable (e ∷ es) =
    single_tools (e ∷ es)
    ++ ((if writable then rename_tool (e ∷ es) ++ move ∷ copy ∷ delete ∷ [] else []) ++ clear ∷ [])

-- The buttons of `renderToolbar`, in their order.
unfoldable pub toolbar : Option Root → Folder → List Tool
unfolding tools_for single_tools rename_tool selected_entries
toolbar none f = []
toolbar (some root) f = tools_for (can_write (some root)) (selected_entries f)

-- What `renderFiles` shows.
pub data View : Type 0 where
  no_storage loading : View
  failed : Property Text → View
  empty : (writable : Bool) → View
  table : (all_selected : Bool) → List (Entry × Bool) → (more : Bool) → View

abbrev is_some {ℓ} : {A : Type ℓ} → Option A → Bool
is_some none = false
is_some (some a) = true

unfoldable pub files_view : (has_root writable : Bool) → Folder → View
files_view has_root writable f = if not has_root then no_storage else elim f.error [
  | some e ↦ failed e
  | none ↦ elim f.entries [
    | [] ↦ if f.loading then View.loading else empty writable
    | e ∷ es ↦
        table (all (λ d. one_of d.name f.selected) (e ∷ es))
          (map (λ d. (d, one_of d.name f.selected)) (e ∷ es)) (is_some (truthy f.next))
  ]
]

-- `renderCrumbs`: the label and the path of each step down to the folder that is shown.
unfoldable pub crumbs_from : Text → List Text → List (Text × Text)
crumbs_from walked [] = []
crumbs_from walked (p ∷ ps) = let here = walked ++ b'/' ∷ p in (p, here) ∷ crumbs_from here ps

unfoldable pub crumbs : Option Root → (path : Text) → List (Text × Text)
unfolding crumbs_from path_segments
crumbs none path = []
crumbs (some root) path = (root.name, codes "/") ∷ crumbs_from [] (path_segments path)
