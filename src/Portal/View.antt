-- ===== src/Portal/View.antt =====
-- assets/portal/portal.js, lines 155-159, 539-630 and 676-780: the elements that a folder is shown with.
pub mod Rows
pub mod Escaping
use vault_box.Base.{
  ℕ, ◌==◌, ltb, length, Bool, true, false, not, ◌&&◌, ◌||◌, Option, none, some, if◌then◌else◌, List,
  [], ◌∷◌, ◌++◌, Text, codes, same, one_of, decimal, non_empty,
}
use vault_box.Mock.Serve.{Property, own, inherited, missing}
use vault_box.Dom.{
  Node, Nodes, Child, Children, nothing, shown, node, array, none_more, more, ◌▸◌, h, attr, given,
  flag, on, leaf, el, only_if, all_of,
}
use vault_box.Portal.Words.{
  Kind, image, video, audio, plain_text, other, kind_of, join_path, format_bytes,
}
use vault_box.Portal.Elements.{icon, button, Options, plain}
use vault_box.Portal.Route.{Root, can_write}
use vault_box.Portal.Folder.{
  Entry, Folder, Tool, upload, new_folder, refresh, preview, download, rename, move, copy, delete,
  clear, selected_entries, toolbar, crumbs, View, files_view,
}

-- What a click or a change asks for.
pub data Msg : Type 0 where
  go_to : (root_id path : Text) → Msg
  use_tool : Tool → List Entry → Msg
  open_file : Entry → Msg
  check_row : (name : Text) → Msg
  check_all : Msg
  load_more : Msg
  try_again : Msg
  do_nothing : Msg

unfoldable pub icon_for : Entry → Text
unfolding kind_of
icon_for e = if e.is_directory then codes "folder" else elim (kind_of e.name) [
  | image ↦ codes "image"
  | video ↦ codes "video"
  | audio ↦ codes "audio"
  | plain_text ↦ codes "file"
  | other ↦ codes "file"
]

abbrev is_current : Option Text → Text → Bool
is_current none id = false
is_current (some r) id = same id r

-- `root.available === false`: a root is listed with the two flags as they are.
pub root_chip : Option Text → Root → Child Msg
root_chip current r =
    el (codes "button")
      (attr "type" "button"
        ∷ attr "class" "chip"
        ∷ given "aria-current" (if is_current current r.id then codes "true" else codes "false")
        ∷ on "onclick" (some (go_to r.id (codes "/")))
        ∷ [])
      (node (icon (codes "folder"))
        ▸ shown r.name
        ▸ only_if (not r.available) (leaf "small" (attr "text" "offline" ∷ []))
        ▸ only_if (not r.writable) (leaf "small" (attr "text" "read-only" ∷ []))
        ▸ none_more)

-- `renderRoots`: a single root gets no chip.
unfoldable pub render_roots : Option Text → List Root → Children Msg
unfolding root_chip
render_roots current rs = if ltb (length rs) 2 then none_more else all_of (root_chip current) rs

-- `crumb`: a click on the current step does nothing.
pub crumb : (root_id label path : Text) → (is_current : Bool) → Child Msg
crumb root_id label path current = leaf "button" (
    attr "type" "button"
    ∷ given "text" label
    ∷ (if current then attr "aria-current" "page" else flag "aria-current" false)
    ∷ on "onclick" (some (if current then do_nothing else go_to root_id path))
    ∷ [])

pub crumbs_shown : (root_id : Text) → List (Text × Text) → Children Msg
crumbs_shown root_id [] = none_more
crumbs_shown root_id ((label, path) ∷ []) = more (crumb root_id label path true) none_more
crumbs_shown root_id ((label, path) ∷ c ∷ cs) = more (crumb root_id label path false) (
    leaf "span" (attr "class" "sep" ∷ attr "aria-hidden" "true" ∷ attr "text" "/" ∷ [])
    ▸ crumbs_shown root_id (c ∷ cs))

unfoldable pub render_crumbs : Option Root → (path : Text) → Children Msg
unfolding crumbs_shown crumb crumbs
render_crumbs none path = none_more
render_crumbs (some root) path = crumbs_shown root.id (crumbs (some root) path)

-- The button of a tool: its label, icon and options.
pub tool_button : Tool → List Entry → Child Msg
tool_button upload es =
    button (codes "Upload") (some (codes "upload"))
      (record plain { kind = some (codes "primary"); keep_text = true }) (some (use_tool upload es))
tool_button new_folder es =
    button (codes "New folder") (some (codes "newfolder")) plain (some (use_tool new_folder es))
tool_button refresh es =
    button (codes "Refresh") (some (codes "refresh")) plain (some (use_tool refresh es))
tool_button preview es =
    button (codes "Preview") (some (codes "view")) plain (some (use_tool preview es))
tool_button download es =
    button (codes "Download") (some (codes "download")) plain (some (use_tool download es))
tool_button rename es =
    button (codes "Rename") (some (codes "edit")) plain (some (use_tool rename es))
tool_button move es = button (codes "Move") (some (codes "move")) plain (some (use_tool move es))
tool_button copy es = button (codes "Copy") (some (codes "copy")) plain (some (use_tool copy es))
tool_button delete es =
    button (codes "Delete") (some (codes "trash")) (record plain { kind = some (codes "danger") })
      (some (use_tool delete es))
tool_button clear es =
    button (codes "Clear") (some (codes "close")) (record plain { kind = some (codes "quiet") })
      (some (use_tool clear es))

pub count_shown : List Entry → Child Msg
count_shown [] = nothing
count_shown (e ∷ es) =
    leaf "span"
      (attr "class" "count" ∷ given "text" (decimal (length (e ∷ es)) ++ codes " selected") ∷ [])

unfoldable pub render_toolbar : Option Root → Folder → Children Msg
unfolding toolbar selected_entries count_shown tool_button
render_toolbar none f = none_more
render_toolbar (some root) f =
    let chosen = selected_entries f in
    more (count_shown chosen) (all_of (λ t. tool_button t chosen) (toolbar (some root) f))

unfoldable pub empty_state : (title text : Text) → Child Msg
unfolding h
empty_state title text =
    el (codes "div") (attr "class" "empty" ∷ [])
      (leaf "strong" (given "text" title ∷ []) ▸ leaf "span" (given "text" text ∷ []) ▸ none_more)
