-- ===== src/Portal/Folder/Tools.antt =====
-- assets/portal/portal.js, lines 564-630: which actions are offered, and the steps to a folder.
use vault_box.Base.{
  ◌≡◌, refl, arith, Bool, true, false, some, List, [], ◌∷◌, ◌++◌, All, All-append, Text, join,
  codes, append_assoc, ◌∙◌,
}
use vault_box.Portal.Route.{Root, can_write}
use vault_box.Portal.Route.Address.{IsName, path_segments-join}
use vault_box.Portal.Folder.{
  Folder, Entry, Tool, upload, new_folder, rename, move, copy, delete, toolbar, tools_for,
  single_tools, selected_entries, crumbs, crumbs_from, clear,
}

-- The actions that change the storage.
abbrev pub is_write : Tool → Bool
is_write upload = true
is_write new_folder = true
is_write rename = true
is_write move = true
is_write copy = true
is_write delete = true
is_write t = false

single_tools_read : (es : List Entry) → All (λ t. is_write t ≡ false) (single_tools es)
unfolding single_tools
single_tools_read [] = tt
single_tools_read (e ∷ []) = ground arith
single_tools_read (e ∷ d ∷ es) = tt

tools_read : (es : List Entry) → All (λ t. is_write t ≡ false) (tools_for false es)
unfolding tools_for
tools_read [] = (refl, tt)
tools_read (e ∷ es) =
    All-append (λ t. is_write t ≡ false) (single_tools (e ∷ es)) (clear ∷ [])
      (single_tools_read (e ∷ es)) (refl, tt)

-- On a root that cannot be written to, or is not available, no action that changes the storage is
-- offered, whatever is selected.
pub toolbar_read_only :
    (root : Root) (f : Folder)
    → can_write (some root) ≡ false
    → All (λ t. is_write t ≡ false) (toolbar (some root) f)
unfolding toolbar
toolbar_read_only root f h = rw h (tools_read (selected_entries f))

-- The path of the last step, or the one given.
abbrev pub last_path : Text → List (Text × Text) → Text
last_path p [] = p
last_path p ((label, q) ∷ cs) = last_path q cs

last_path-crumbs_from :
    (walked s : Text) (ss : List Text)
    → last_path walked (crumbs_from walked (s ∷ ss)) ≡ walked ++ b'/' ∷ join (s ∷ ss)
unfolding crumbs_from join
last_path-crumbs_from walked s [] = refl
last_path-crumbs_from walked s (t ∷ ss) =
    last_path-crumbs_from (walked ++ b'/' ∷ s) t ss
    ∙ append_assoc walked (b'/' ∷ s) (b'/' ∷ join (t ∷ ss))

last_path-crumbs : (ss : List Text) → last_path (codes "/") (crumbs_from [] ss) ≡ b'/' ∷ join ss
unfolding crumbs_from join
last_path-crumbs [] = refl
last_path-crumbs (s ∷ ss) = last_path-crumbs_from [] s ss

-- The steps down to a folder end at the path of that folder.
pub crumbs_end :
    (root : Root) (ss : List Text)
    → All IsName ss
    → last_path [] (crumbs (some root) (b'/' ∷ join ss)) ≡ b'/' ∷ join ss
unfolding crumbs
crumbs_end root ss h = rw (path_segments-join ss h) (last_path-crumbs ss)
