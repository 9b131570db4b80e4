-- ===== src/Mock/Listing.antt =====
-- tool/portal_mock_server.js, lines 243-259: one page of a directory, for the `entries` action.
pub mod Complete
pub mod Paging
use vault_box.Base.{
  ℕ, ◌==◌, Bool, true, false, not, ◌&&◌, Option, none, some, if◌then◌else◌, List, [], ◌∷◌, ◌++◌,
  Text, codes, same, keep, take, length, to_lower,
}
use vault_box.Mock.Tree.{Tree, Entry, entry_json, name_of, slash, children}

abbrev cons_entry : Option Entry → Option (List Entry) → Option (List Entry)
cons_entry none rest = none
cons_entry (some e) none = none
cons_entry (some e) (some es) = some (e ∷ es)

-- `names.map(entryJson)`; `none` where one of the calls throws.
unfoldable pub entry_list : Tree → List Text → Option (List Entry)
entry_list tree [] = some []
entry_list tree (n ∷ ns) = cons_entry (entry_json tree n) (entry_list tree ns)

-- `findIndex` and `slice`: the names behind the one that the cursor names, or none at all.
pub after_cursor : Text → List Text → List Text
after_cursor c [] = []
after_cursor c (n ∷ ns) = if same (name_of n) c then ns else after_cursor c ns

-- An absent cursor and an empty one are both falsy.
abbrev pub from_cursor : Option Text → List Text → List Text
from_cursor none names = names
from_cursor (some []) names = names
from_cursor (some (c ∷ cs)) names = after_cursor (c ∷ cs) names

last_name : List Text → Text
last_name [] = []
last_name (n ∷ []) = name_of n
last_name (n ∷ m ∷ ns) = last_name (m ∷ ns)

-- `page.length === limit ? nameOf(page[page.length - 1]) : null`
abbrev next_cursor : ℕ → List Text → Option Text
next_cursor limit page = if length page == limit then some (last_name page) else none

abbrev pub is_visible : Text → Text → Bool
is_visible p n = not (same p slash && same (to_lower (name_of n)) (codes ".vaultbox"))

pub record Page : Type 0 where
  pub entries : List Entry
  pub next : Option Text

abbrev page_of : Option (List Entry) → Option Text → Option Page
page_of none next = none
page_of (some entries) next = some (record { entries = entries; next = next })

abbrev page_names : ℕ → Option Text → List Text → List Text
page_names limit cursor names = take limit (from_cursor cursor names)

-- `none` is a throw.
unfoldable pub list_dir : Tree → Text → ℕ → Option Text → Option Page
unfolding after_cursor last_name entry_list
list_dir tree p limit cursor =
    let page = page_names limit cursor (children tree p) in
    page_of (entry_list tree (keep (is_visible p) page)) (next_cursor limit page)
