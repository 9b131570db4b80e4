-- ===== src/PublicPage/View/Listing.antt =====
-- assets/portal/public.js, lines 251-298: the elements of a shared folder.
use vault_box.Base.{
  Bool, true, false, Option, none, some, if◌then◌else◌, List, [], ◌∷◌, Text, codes, String,
}
use vault_box.Mock.Serve.{own}
use vault_box.Dom.{Child, Children, node, none_more, ◌▸◌, attr, given, flag, on, only_if}
use vault_box.Portal.Folder.{Entry}
use vault_box.PublicPage.Folder.{Shared, join_name, steps}
use vault_box.PublicPage.View.{Msg, go_to, load_more, h, format_bytes, brand, label}

abbrev or_folder : Option Text → Text
or_folder none = codes "Folder"
or_folder (some []) = codes "Folder"
or_folder (some (c ∷ t)) = c ∷ t

pub crumb : (label path : Text) → Child Msg
unfolding h
crumb label path = node (
    h (codes "button")
      (attr "type" "button" ∷ given "text" label ∷ on "onclick" (some (go_to path)) ∷ []) none_more)

pub more_crumbs : List (Text × Text) → Children Msg
unfolding crumb h
more_crumbs [] = none_more
more_crumbs ((label, path) ∷ rest) =
    node (
      h (codes "span") (attr "class" "sep" ∷ attr "aria-hidden" "true" ∷ attr "text" "/" ∷ [])
        none_more)
    ▸ crumb label path
    ▸ more_crumbs rest

unfoldable pub crumbs : (name : Option Text) → (path : Text) → Child Msg
unfolding h crumb more_crumbs steps
crumbs name path = node (
    h (codes "nav") (attr "class" "crumbs" ∷ attr "aria-label" "Folder path" ∷ [])
      (crumb (or_folder name) (codes "/") ▸ more_crumbs (steps path)))

-- `when` is how the browser writes the time of an entry; `url` is `contentUrl`, with `none` for its
-- exception.
module _ (when : Entry → Text) (url : Text → Option Text) where
  pub name_link : (path : Text) → Entry → Option (Child Msg)
  unfolding h join_name
  name_link path e =
      let inside =
        node (h (codes "span") (attr "class" "label" ∷ given "text" e.name ∷ []) none_more)
        ▸ none_more in
      if e.is_directory
      then some (
          node (
            h (codes "button")
              (attr "type" "button"
                ∷ attr "class" "name-btn"
                ∷ on "onclick" (some (go_to (join_name path e.name)))
                ∷ [])
              inside))
      else elim (url (join_name path e.name)) [
        | none ↦ none
        | some u ↦ some (
            node (
              h (codes "a")
                (attr "class" "name-btn file" ∷ given "href" u ∷ given "download" e.name ∷ [])
                inside))
      ]

  pub row : Entry → Child Msg → Child Msg
  unfolding h format_bytes
  row e name = node (
      h (codes "tr") [] (
        node (h (codes "td") [] (name ▸ none_more))
        ▸ node (
            h (codes "td")
              (attr "class" "num"
                ∷ given "text" (if e.is_directory then [] else format_bytes e.size)
                ∷ [])
              none_more)
        ▸ node (h (codes "td") (attr "class" "when" ∷ given "text" (when e) ∷ []) none_more)
        ▸ none_more))

  pub rows : (path : Text) → List Entry → Option (Children Msg)
  unfolding name_link row
  rows path [] = some none_more
  rows path (e ∷ es) =
      let rest = rows path es in
      elim (name_link path e) [
        | none ↦ none
        | some n ↦ elim rest [ none ↦ none | some cs ↦ some (row e n ▸ cs) ]
      ]

  table : Children Msg → (has_next loading : Bool) → Child Msg
  unfolding h label
  table body has_next loading = node (
      h (codes "div") [] (
        node (
          h (codes "table") (attr "class" "files" ∷ []) (
            node (
              h (codes "thead") [] (
                node (
                  h (codes "tr") [] (
                    node (h (codes "th") (attr "text" "Name" ∷ []) none_more)
                    ▸ node (h (codes "th") (attr "class" "num" ∷ attr "text" "Size" ∷ []) none_more)
                    ▸ node (
                        h (codes "th") (attr "class" "when" ∷ attr "text" "Modified" ∷ [])
                          none_more)
                    ▸ none_more))
                ▸ none_more))
            ▸ node (h (codes "tbody") [] body)
            ▸ none_more))
        ▸ only_if has_next (
            node (
              h (codes "div") (attr "class" "more" ∷ []) (
                node (
                  h (codes "button")
                    (attr "type" "button"
                      ∷ attr "class" "btn"
                      ∷ flag "disabled" loading
                      ∷ on "onclick" (some load_more)
                      ∷ [])
                    (label "txt" "Load more" ▸ none_more))
                ▸ none_more)))
        ▸ none_more))

  abbrev is_next : Option Text → Bool
  is_next none = false
  is_next (some []) = false
  is_next (some (c ∷ t)) = true

  message : (title : String) → Children Msg → Child Msg
  unfolding h
  message title inside = node (
      h (codes "div") (attr "class" "empty" ∷ [])
        (node (h (codes "strong") (attr "text" title ∷ []) none_more) ▸ inside))

  -- `state.error` is truthy for all that `describe` gives.
  pub folder_body : (native : Text) → Shared → Option (Child Msg)
  unfolding h message rows table
  folder_body native f = elim f.error [
    | some e ↦ some (
        message "Couldn't open this folder" (
          node (
            h (codes "p") (given "text" (elim e as (λ x. Text) [ own t ↦ t | _ ↦ native ]) ∷ [])
              none_more)
          ▸ none_more))
    | none ↦ elim f.entries [
      | [] ↦ some (
          if f.loading
          then node (
              h (codes "div")
                (attr "class" "empty" ∷ attr "role" "status" ∷ attr "text" "Loading…" ∷ [])
                none_more)
          else message "This folder is empty" none_more)
      | e ∷ es ↦ elim (rows f.path (e ∷ es)) [
        | none ↦ none
        | some body ↦ some (table body (is_next f.next) f.loading)
      ]
    ]
  ]

  unfoldable pub render_folder :
      (native : Text)
      → (name : Option Text) → (expiry insecure : Child Msg) → Shared
      → Option (Child Msg)
  unfolding h brand crumbs folder_body
  render_folder native name expiry insecure f = elim (folder_body native f) [
    | none ↦ none
    | some body ↦ some (
        node (
          h (codes "main") (attr "class" "page" ∷ []) (
            brand
            ▸ expiry
            ▸ crumbs name f.path
            ▸ node (h (codes "section") (attr "class" "panel" ∷ []) (body ▸ none_more))
            ▸ insecure
            ▸ none_more)))
  ]
