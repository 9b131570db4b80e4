-- ===== src/Portal/Dialog/Names.antt =====
-- assets/portal/portal.js, lines 843-876: names that are typed into a dialog.
use vault_box.Base.{
  ◌≡◌, ◌≢◌, arith, Bool, true, false, some, Text, IsFree, has_char, has_char-eq-false, non_empty,
  [],
}
use vault_box.Portal.Words.{join_path, parent_path}
use vault_box.Portal.Words.Paths.{parent_path-join_path}
use vault_box.Portal.Dialog.{prompt_text, problem_of}

pub prompt_text-some :
    (b : Bool) (typed : Text) {name : Text}
    → prompt_text b typed ≡ some name
    → (non_empty name ≡ true) × (has_char b'/' name ≡ false) × (has_char b'\\' name ≡ false)
unfolding prompt_text problem_of
prompt_text-some b typed h = ground (arith, h)

-- A name that a dialog gives is not empty and has no separator of either kind, so that the item
-- that gets it in a folder is in that folder and not below it or elsewhere.
pub parent_path-prompt_text :
    (b : Bool) (typed directory : Text) {name : Text}
    → directory ≢ []
    → prompt_text b typed ≡ some name
    → (non_empty name ≡ true)
      × IsFree b'\\' name
      × (parent_path (join_path directory name) ≡ directory)
parent_path-prompt_text b typed directory {name} n h =
    let (p, q, r) = prompt_text-some b typed h in
    (
      p,
      has_char-eq-false b'\\' name r,
      parent_path-join_path directory name (has_char-eq-false b'/' name q) n,
    )
