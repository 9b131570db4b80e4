-- ===== src/Portal/Shell.antt =====
-- assets/portal/portal.js, lines 206-210 and 476-537: toasts, the frame of the page, what is dragged
-- over it and dropped on it, and the warning before it is left; lines 1123-1144: what a drop holds.
use vault_box.Base.{
  Bool, true, false, not, ◌||◌, Option, none, some, if◌then◌else◌, List, [], ◌∷◌, Text, codes,
  one_of, any,
}
use vault_box.Dom.{Node, Children, node, none_more, ◌▸◌, h, attr, given, flag, on, leaf, el}
use vault_box.Portal.Elements.{button, plain}
use vault_box.Portal.Uploads.{File, is_active, Uploads}
use vault_box.Portal.Actions.{toast_class}

-- What the frame asks for: the files of its input, and the sign-out.
pub data Msg : Type 0 where
  picks_files : Msg
  signs_out : Msg

pub toast_node : Text → (is_error : Bool) → Node Msg
toast_node message is_error =
    h (codes "div") (given "class" (toast_class is_error) ∷ given "text" message ∷ []) none_more

-- The parts of the frame that the others are shown in.
pub record Parts : Type 0 where
  pub roots : Node Msg
  pub crumbs : Node Msg
  pub toolbar : Node Msg
  pub panel : Node Msg
  pub uploads : Node Msg
  pub file_input : Node Msg

unfoldable pub parts : Parts
unfolding h
parts = record {
  roots =
      h (codes "nav") (attr "class" "roots" ∷ attr "aria-label" "Storage locations" ∷ []) none_more;
  crumbs = h (codes "nav") (attr "class" "crumbs" ∷ attr "aria-label" "Folder path" ∷ []) none_more;
  toolbar =
      h (codes "div")
        (attr "class" "toolbar" ∷ attr "role" "toolbar" ∷ attr "aria-label" "File actions" ∷ [])
        none_more;
  panel = h (codes "section") (attr "class" "panel" ∷ attr "aria-label" "Files" ∷ []) none_more;
  uploads =
      h (codes "aside") (attr "class" "uploads hidden" ∷ attr "aria-label" "Uploads" ∷ [])
        none_more;
  file_input =
      h (codes "input")
        (attr "type" "file"
          ∷ flag "multiple" true
          ∷ attr "class" "hidden"
          ∷ attr "aria-hidden" "true"
          ∷ attr "tabindex" "-1"
          ∷ on "onchange" (some picks_files)
          ∷ [])
        none_more;
}

-- `username` is none where there is no user.
unfoldable pub build_shell : (username : Option Text) → Parts → Children Msg
unfolding h button
build_shell username p =
    el (codes "header") (attr "class" "topbar" ∷ []) (
      el (codes "div") (attr "class" "brand" ∷ []) (
        leaf "span" (attr "class" "brand-mark" ∷ attr "aria-hidden" "true" ∷ [])
        ▸ leaf "h1" (attr "text" "VaultBox" ∷ [])
        ▸ none_more)
      ▸ leaf "span" (attr "class" "spacer" ∷ [])
      ▸ leaf "span"
          (attr "class" "who" ∷ given "text" (elim username [ none ↦ [] | some u ↦ u ]) ∷ [])
      ▸ button (codes "Sign out") (some (codes "logout"))
          (record plain { small = true; kind = some (codes "quiet") }) (some signs_out)
      ▸ none_more)
    ▸ el (codes "main") (attr "class" "page" ∷ [])
        (node p.roots ▸ node p.crumbs ▸ node p.toolbar ▸ node p.panel ▸ none_more)
    ▸ node p.uploads
    ▸ node p.file_input
    ▸ none_more

-- `hasFiles`: `none` where the event has no data, or its data no types.
pub has_files : (types : Option (List Text)) → Bool
has_files none = false
has_files (some ts) = one_of (codes "Files") ts

-- What is dragged: over the panel, out of it, and a drop on it, with the types of the data.
pub data Drag : Type 0 where
  over : (types : Option (List Text)) → Drag
  leave : Drag
  drop : (types : Option (List Text)) → Drag

-- Whether the panel shows that it can be dropped on, and whether the drop is taken.
unfoldable pub drag : (can_write : Bool) → Drag → (dragging : Bool) → Bool × Bool
unfolding has_files
drag can_write (over types) dragging =
    if not can_write || not (has_files types) then (dragging, false) else (true, false)
drag can_write leave dragging = (false, false)
drag can_write (drop types) dragging =
    if not can_write || not (has_files types) then (false, false) else (false, true)

-- An item of a drop: whether it is of kind "file", whether it is a directory, and its file.
pub record Dropped : Type 0 where
  pub is_file : Bool
  pub is_directory : Bool
  pub source : Option File

-- `collectDropped`: the files that are queued, and whether a folder was left out.
pub collect_items : List Dropped → List File × Bool
collect_items [] = ([], false)
collect_items (d ∷ ds) =
    let (files, skipped) = collect_items ds in
    if not d.is_file
    then (files, skipped)
    else if d.is_directory
    then (files, true)
    else (elim d.source [ none ↦ files | some f ↦ f ∷ files ], skipped)

-- The list of items is used if there is one that is not empty, and else the list of files.
unfoldable pub collect_dropped : List Dropped → List File → List File × Bool
unfolding collect_items
collect_dropped [] files = (files, false)
collect_dropped (d ∷ ds) files = collect_items (d ∷ ds)

-- `warnIfUploading`: whether the page asks before it is left.
pub warns : Uploads → Bool
warns u = any is_active u.items
