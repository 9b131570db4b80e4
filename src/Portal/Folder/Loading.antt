-- ===== src/Portal/Folder/Loading.antt =====
-- assets/portal/portal.js, lines 641-674: replies that come late.
use vault_box.Base.{◌≡◌, arith, ◌≤◌, Bool, List, [], ◌∷◌, Text}
use vault_box.Portal.Folder.{Folder, Reply, load, loaded}

-- More loads of the folder, each with or without a reset.
abbrev pub load_again : List Bool → Folder → Folder
load_again [] f = f
load_again (b ∷ bs) f = load_again bs (load b f).0

load_again-counter : (bs : List Bool) (f : Folder) → f.load_counter ≤ (load_again bs f).load_counter
unfolding load
load_again-counter [] f = ground arith
load_again-counter (b ∷ bs) f = ground (arith, load_again-counter bs (load b f).0)

-- Once a folder is loaded again, however often, the reply to an earlier load changes nothing,
-- whether it is a page or a failure.
pub loaded-stale :
    (leb_name : Text → Text → Bool) (f : Folder) (reset : Bool) (b : Bool) (bs : List Bool)
    (r : Reply)
    → loaded leb_name (load reset f).1 r (load_again (b ∷ bs) (load reset f).0)
      ≡ load_again (b ∷ bs) (load reset f).0
unfolding loaded load
loaded-stale leb_name f reset b bs r =
    ground (arith, load_again-counter bs (load b (load reset f).0).0)
