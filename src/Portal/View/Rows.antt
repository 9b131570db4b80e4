-- ===== src/Portal/View/Rows.antt =====
-- assets/portal/portal.js, lines 676-780: the table of files, and what a click on a name does.
use vault_box.Base.{
  ℕ, Bool, true, false, Option, none, some, if◌then◌else◌, [], ◌∷◌, ◌++◌, Text, codes, ltb, ◌*◌,
}
use vault_box.Mock.Serve.{Property, own}
use vault_box.Dom.{
  Child, Children, node, none_more, more, ◌▸◌, h, attr, given, flag, on, leaf, el, only_if, all_of,
}
use vault_box.Portal.Words.{Kind, plain_text, other, kind_of, join_path, format_bytes}
use vault_box.Portal.Elements.{icon, button, plain}
use vault_box.Portal.Folder.{Entry, View}
use vault_box.Portal.View.{
  Msg, go_to, open_file, check_row, check_all, load_more, try_again, icon_for, empty_state,
}

-- `open.onclick`: a folder is gone to, a file opened.
pub on_open : (root_id path : Text) → Entry → Msg
on_open root_id path e =
    if e.is_directory then go_to root_id (join_path path e.name) else open_file e

-- `openFile` and the first lines of `previewFile`: a file is previewed where its kind can be, and a
-- text only up to half a megabyte.
pub data Opening : Type 0 where
  as_download : (told : Bool) → Opening
  as_preview : Kind → Opening

abbrev size_over : Option ℕ → Bool
size_over none = false
size_over (some n) = ltb (512 * 1024) n

unfoldable pub opening : Entry → Opening
unfolding kind_of
opening e = elim (kind_of e.name) [
  | other ↦ as_download false
  | plain_text ↦ if size_over e.size then as_download true else as_preview plain_text
  | k ↦ as_preview k
]

-- `when` is how the browser writes the time of an entry, `native` how it writes an error that is a
-- function, which a message of an inherited name is.
module _ (when : Entry → Text) (native : Text) where
  unfoldable pub render_row : (root_id path : Text) → Entry × Bool → Child Msg
  unfolding h icon_for format_bytes join_path on_open
  render_row root_id path (e, checked) =
      el (codes "tr") ((if checked then attr "class" "selected" else flag "class" false) ∷ []) (
        el (codes "td") (attr "class" "check" ∷ []) (
          leaf "input" (
            attr "type" "checkbox"
            ∷ flag "checked" checked
            ∷ given "aria-label" (codes "Select " ++ e.name)
            ∷ on "onchange" (some (check_row e.name))
            ∷ [])
          ▸ none_more)
        ▸ el (codes "td") [] (
            el (codes "button")
              (attr "type" "button"
                ∷ (if e.is_directory then attr "class" "name-btn" else attr "class" "name-btn file")
                ∷ on "onclick" (some (on_open root_id path e))
                ∷ [])
              (node (icon (icon_for e))
                ▸ leaf "span" (attr "class" "label" ∷ given "text" e.name ∷ [])
                ▸ none_more)
            ▸ none_more)
        ▸ leaf "td" (
            attr "class" "num"
            ∷ given "text" (if e.is_directory then [] else format_bytes e.size)
            ∷ [])
        ▸ leaf "td" (attr "class" "when" ∷ given "text" (when e) ∷ [])
        ▸ none_more)

  error_text : Property Text → Text
  error_text (own t) = t
  error_text p = native

  pub head_row : Bool → Child Msg
  head_row all_selected = el (codes "thead") [] (
      el (codes "tr") [] (
        el (codes "th") (attr "class" "check" ∷ []) (
          leaf "input" (
            attr "type" "checkbox"
            ∷ flag "checked" all_selected
            ∷ attr "aria-label" "Select all"
            ∷ on "onchange" (some check_all)
            ∷ [])
          ▸ none_more)
        ▸ leaf "th" (attr "text" "Name" ∷ [])
        ▸ leaf "th" (attr "class" "num" ∷ attr "text" "Size" ∷ [])
        ▸ leaf "th" (attr "class" "when" ∷ attr "text" "Modified" ∷ [])
        ▸ none_more)
      ▸ none_more)

  -- `renderFiles`; `loading` is whether a page is still to come.
  unfoldable pub render_files : (root_id path : Text) → (loading : Bool) → View → Children Msg
  unfolding render_row head_row error_text empty_state button h
  render_files root_id path loading View.no_storage =
      more
        (empty_state (codes "No storage is shared yet")
          (codes "Add a storage location in the VaultBox app on the phone."))
        none_more
  render_files root_id path loading (View.failed e) =
      more
        (el (codes "div") (attr "class" "empty" ∷ []) (
          leaf "strong" (attr "text" "Couldn't open this folder" ∷ [])
          ▸ leaf "p" (given "text" (error_text e) ∷ [])
          ▸ button (codes "Try again") (some (codes "refresh")) plain (some try_again)
          ▸ none_more))
        none_more
  render_files root_id path loading View.loading =
      more (leaf "div" (attr "class" "empty" ∷ attr "role" "status" ∷ attr "text" "Loading…" ∷ []))
        none_more
  render_files root_id path loading (View.empty writable) =
      more
        (empty_state (codes "This folder is empty")
          (if writable then codes "Drop files here or use Upload." else codes "Nothing here yet."))
        none_more
  render_files root_id path loading (View.table all_selected rows has_next) =
      more
        (el (codes "table") (attr "class" "files" ∷ []) (
          head_row all_selected
          ▸ el (codes "tbody") [] (all_of (render_row root_id path) rows)
          ▸ none_more))
        (more
          (only_if has_next (
            el (codes "div") (attr "class" "more" ∷ []) (
              button (if loading then codes "Loading…" else codes "Load more") none
                (record plain { keep_text = true; disabled = loading }) (some load_more)
              ▸ none_more)))
          none_more)
