-- ===== src/Portal/Picker/Shown.antt =====
-- assets/portal/portal.js, lines 1025-1043 and 1054-1091: the elements of the dialog that a folder is
-- picked in.
use vault_box.Base.{Bool, true, false, some, if◌then◌else◌, [], ◌∷◌, Text, codes}
use vault_box.Mock.Serve.{own}
use vault_box.Dom.{
  Child, Children, shown, node, none_more, ◌▸◌, h, attr, given, flag, on, leaf, el, all_of,
}
use vault_box.Portal.Elements.{icon, button, plain}
use vault_box.Portal.Batches.{Conflict, skip, keep_both, replace, conflict_text}
use vault_box.Portal.Picker.{
  Event, up, open_folder, choose, Listed, loading, no_folders, folders, problem, Picker,
}

abbrev pub is_skip : Conflict → Bool
is_skip skip = true
is_skip c = false

pub conflict_label : Conflict → Text
conflict_label skip = codes "Skip"
conflict_label keep_both = codes "Keep both"
conflict_label replace = codes "Replace"

-- A radio button, as the dialog is made.
unfoldable pub radio : Conflict → Child Event
unfolding h conflict_text conflict_label
radio c = el (codes "label") [] (
    leaf "input" (
      attr "type" "radio"
      ∷ attr "name" "conflict"
      ∷ given "value" (conflict_text c)
      ∷ flag "checked" (is_skip c)
      ∷ on "onchange" (some (choose c))
      ∷ [])
    ▸ shown (conflict_label c)
    ▸ none_more)

pub message_item : Text → Child Event
unfolding h
message_item t =
    el (codes "li") [] (leaf "span" (attr "class" "empty" ∷ given "text" t ∷ []) ▸ none_more)

unfoldable pub folder_item : (name : Text) → Child Event
unfolding h icon
folder_item name = el (codes "li") [] (
    el (codes "button")
      (attr "type" "button" ∷ attr "class" "name-btn" ∷ on "onclick" (some (open_folder name)) ∷ [])
      (node (icon (codes "folder"))
        ▸ leaf "span" (attr "class" "label" ∷ given "text" name ∷ [])
        ▸ none_more)
    ▸ none_more)

-- The list; `native` is how the browser writes a message that is a function.
unfoldable pub render_list : (native : Text) → Listed → Children Event
unfolding message_item folder_item
render_list native loading = message_item (codes "Loading…") ▸ none_more
render_list native no_folders = message_item (codes "No folders here") ▸ none_more
render_list native (folders names) = all_of folder_item names
render_list native (problem e) =
    message_item (elim e as (λ x. Text) [ own t ↦ t | _ ↦ native ]) ▸ none_more

-- The text of the note stays when it is hidden again; it is not shown then.
pub note : (is_shown : Bool) → Child Event
unfolding h
note is_shown = leaf "p" (
    (if is_shown then attr "class" "notice" else attr "class" "notice hidden")
    ∷ attr "role" "status"
    ∷ (if is_shown then attr "text" "Only the first 500 items are shown." else flag "text" false)
    ∷ [])

unfoldable pub content : (native : Text) → Picker → Child Event
unfolding h button render_list radio note
content native p = el (codes "div") [] (
    el (codes "div") (attr "class" "toolbar" ∷ []) (
      button (codes "Up") (some (codes "up"))
        (record plain {
          small = true;
          kind = some (codes "quiet");
          keep_text = true;
          disabled = p.at_top;
        })
        (some up)
      ▸ leaf "p" (attr "class" "picker-path" ∷ given "text" p.label ∷ [])
      ▸ none_more)
    ▸ el (codes "ul") (attr "class" "picker-list" ∷ []) (render_list native p.listed)
    ▸ note p.has_note
    ▸ leaf "p" (attr "text" "If a file with the same name is already there:" ∷ [])
    ▸ el (codes "div") (attr "class" "radio-row" ∷ [])
        (all_of radio (skip ∷ keep_both ∷ replace ∷ []))
    ▸ none_more)
