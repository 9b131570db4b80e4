-- ===== src/Portal/View/Escaping.antt =====
-- assets/portal/portal.js, lines 713-775: what a name of a file can do to the page.
use vault_box.Base.{◌≡◌, refl, Bool, Text, codes, String}
use vault_box.Dom.Outline.{
  Shapes, tagged, empty, followed, join_shapes, outline, child_outline, outline-h,
}
use vault_box.Portal.Elements.{icon}
use vault_box.Portal.Folder.{Entry}
use vault_box.Portal.View.{icon_for, Msg}
use vault_box.Portal.View.Rows.{render_row}

abbrev one : String → Shapes → Shapes
one tag below = followed (tagged (codes tag) below) empty

-- The elements of a row with an icon.
abbrev pub row_shape : Text → Shapes
row_shape name = one "tr" (
    join_shapes (one "td" (join_shapes (one "input" empty) empty)) (
      join_shapes
        (one "td" (
          join_shapes
            (one "button"
              (join_shapes (outline {M = Msg} (icon name)) (join_shapes (one "span" empty) empty)))
            empty))
        (join_shapes (one "td" empty) (join_shapes (one "td" empty) empty))))

-- The elements of a row are those of its icon and the eight around it, whatever the name, the size and
-- the time of the entry are, where it is, and whether it is selected: a name never becomes markup.
pub render_row-outline :
    (when : Entry → Text) (native root_id path : Text) (e : Entry) (checked : Bool)
    → child_outline (render_row when native root_id path (e, checked)) ≡ row_shape (icon_for e)
unfolding render_row child_outline
render_row-outline when native root_id path e checked = simp outline-h refl
