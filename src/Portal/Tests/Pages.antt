-- ===== src/Portal/Tests/Pages.antt =====
-- Runs of the portal's uploads and rows on small inputs, at which the theorems apply.
use vault_box.Base.{◌≡◌, true, false, some, [], ◌∷◌, codes}
use vault_box.Portal.Folder.{Entry}
use vault_box.Portal.View.{icon_for}
use vault_box.Portal.View.Rows.{render_row}
use vault_box.Portal.View.Escaping.{row_shape, render_row-outline}
use vault_box.Dom.Outline.{child_outline}
use vault_box.Portal.Uploads.{Event, queued}

abbrev two_files : Event
two_files =
    queued true (codes "phone") (codes "/")
      (record { name = codes "a"; size = 1 } ∷ record { name = codes "b"; size = 2 } ∷ [])

abbrev bold : Entry
bold = record { name = codes "<b>.png"; is_directory = false; size = some 3 }

render_row-outline_example :
    child_outline (render_row (λ e. codes "today") [] (codes "phone") (codes "/") (bold, true))
    ≡ row_shape (icon_for bold)
render_row-outline_example =
    render_row-outline (λ e. codes "today") [] (codes "phone") (codes "/") bold true
