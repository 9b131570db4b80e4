-- ===== src/Portal/Elements.antt =====
-- assets/portal/portal.js, lines 64-107: icons and buttons.
use vault_box.Base.{
  Bool, false, Option, none, some, if◌then◌else◌, List, [], ◌∷◌, ◌++◌, Text, codes,
}
use vault_box.Base.Dict
use vault_box.Base.Dict.{Dict}
use vault_box.Mock.Serve.{Property, own, property}
use vault_box.Dom.{
  Node, element, nil, Child, nothing, node, none_more, ◌▸◌, h, attr, given, flag, on, leaf,
  append_child,
}

abbrev file_paths : List Text
file_paths =
    codes "M14 3H7a2 2 0 0 0-2 2v14a2 2 0 0 0 2 2h10a2 2 0 0 0 2-2V8z" ∷ codes "M14 3v5h5" ∷ []

-- The lines that each icon is drawn with.
abbrev pub icons : Dict (List Text)
icons =
    (
      codes "folder",
      codes "M3 7a2 2 0 0 1 2-2h4l2 2h8a2 2 0 0 1 2 2v8a2 2 0 0 1-2 2H5a2 2 0 0 1-2-2z" ∷ [],
    )
    ∷ (codes "file", file_paths)
    ∷ (
      codes "image",
      codes "M4 5h16v14H4z" ∷ codes "M4 17l5-5 4 4 3-3 4 4" ∷ codes "M9 9.5h.01" ∷ [],
    )
    ∷ (codes "video", codes "M4 6h12v12H4z" ∷ codes "M16 10l5-3v10l-5-3" ∷ [])
    ∷ (
      codes "audio",
      codes "M9 18V6l10-2v12"
          ∷ codes "M9 18a2.5 2.5 0 1 1-5 0 2.5 2.5 0 0 1 5 0"
          ∷ codes "M19 16a2.5 2.5 0 1 1-5 0 2.5 2.5 0 0 1 5 0"
          ∷ [],
    )
    ∷ (codes "upload", codes "M12 16V4" ∷ codes "M7 9l5-5 5 5" ∷ codes "M4 20h16" ∷ [])
    ∷ (codes "download", codes "M12 4v12" ∷ codes "M7 11l5 5 5-5" ∷ codes "M4 20h16" ∷ [])
    ∷ (
      codes "newfolder",
      codes "M3 7a2 2 0 0 1 2-2h4l2 2h8a2 2 0 0 1 2 2v8a2 2 0 0 1-2 2H5a2 2 0 0 1-2-2z"
          ∷ codes "M12 10v6"
          ∷ codes "M9 13h6"
          ∷ [],
    )
    ∷ (
      codes "trash",
      codes "M4 7h16"
          ∷ codes "M10 11v6"
          ∷ codes "M14 11v6"
          ∷ codes "M6 7l1 13h10l1-13"
          ∷ codes "M9 7V4h6v3"
          ∷ [],
    )
    ∷ (codes "edit", codes "M4 20l4-1 11-11-3-3L5 16z" ∷ codes "M14 6l3 3" ∷ [])
    ∷ (codes "move", codes "M5 12h14" ∷ codes "M13 6l6 6-6 6" ∷ [])
    ∷ (codes "copy", codes "M9 9h10v10H9z" ∷ codes "M5 15V5h10" ∷ [])
    ∷ (codes "refresh", codes "M20 11a8 8 0 1 0-2.3 5.7" ∷ codes "M20 5v6h-6" ∷ [])
    ∷ (codes "logout", codes "M9 4H5v16h4" ∷ codes "M16 8l4 4-4 4" ∷ codes "M20 12H9" ∷ [])
    ∷ (codes "close", codes "M6 6l12 12" ∷ codes "M18 6L6 18" ∷ [])
    ∷ (codes "up", codes "M12 19V5" ∷ codes "M6 11l6-6 6 6" ∷ [])
    ∷ (
      codes "view",
      codes "M2 12s4-7 10-7 10 7 10 7-4 7-10 7S2 12 2 12z"
          ∷ codes "M12 15a3 3 0 1 0 0-6 3 3 0 0 0 0 6z"
          ∷ [],
    )
    ∷ []

-- The icons are asked for by names that the code has written out, none of which an object inherits.
pub paths_of : Property (List Text) → List Text
paths_of (own ps) = ps
paths_of p = file_paths

module _ {ℓ} {M : Type ℓ} where
  pub draw : Node M → List Text → Node M
  draw svg [] = svg
  draw svg (d ∷ ds) =
      draw (append_child svg (element (codes "path") ((codes "d", d) ∷ []) [] [] nil)) ds

  unfoldable pub icon : Text → Node M
  unfolding draw paths_of property append_child Dict.get
  icon name =
      draw
        (element (codes "svg")
          ((codes "viewBox", codes "0 0 24 24")
            ∷ (codes "class", codes "icon")
            ∷ (codes "aria-hidden", codes "true")
            ∷ [])
          [] [] nil)
        (paths_of (property name icons))

-- The options of `button` that are used.
pub record Options : Type 0 where
  pub kind : Option Text
  pub small : Bool
  pub keep_text : Bool
  pub submit : Bool
  pub disabled : Bool

abbrev pub plain : Options
plain = record { kind = none; small = false; keep_text = false; submit = false; disabled = false }

-- `class` of a button.
pub button_class : Options → Text
button_class o =
    codes "btn"
    ++ elim o.kind [ none ↦ [] | some k ↦ b' ' ∷ k ]
    ++ (if o.small then codes " small" else [])
    ++ (if o.keep_text then codes " keep-text" else [])

module _ {ℓ} {M : Type ℓ} where
  -- `button`, without `iconOnly`, which no call has.
  unfoldable pub button : (label : Text) → (icon_name : Option Text) → Options → Option M → Child M
  unfolding icon button_class h
  button label icon_name o f = node (
      h (codes "button")
        (given "type" (if o.submit then codes "submit" else codes "button")
          ∷ given "class" (button_class o)
          ∷ on "onclick" f
          ∷ flag "disabled" o.disabled
          ∷ given "title" label
          ∷ [])
        (elim icon_name [ none ↦ nothing | some n ↦ node (icon n) ]
          ▸ leaf "span" (attr "class" "txt" ∷ given "text" label ∷ [])
          ▸ none_more))
