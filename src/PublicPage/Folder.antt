-- ===== src/PublicPage/Folder.antt =====
-- assets/portal/public.js, lines 130-136 and 223-263: a shared folder.
use vault_box.Base.{
  ◌≡◌, refl, arith, ℕ, ◌+◌, Bool, true, false, Option, none, some, if◌then◌else◌, List, [], ◌∷◌,
  ◌++◌, Text, codes, same, segments, All, non_empty, keep, split,
}
use vault_box.Mock.Serve.{Property}
use vault_box.Portal.Folder.{Entry, entry_leb, sort_by, crumbs_from}
use vault_box.Portal.Folder.Order.{count, count-append, count-sort_by}

pub record Shared : Type 0 where
  pub path : Text
  pub entries : List Entry
  pub next : Option Text
  pub loading : Bool
  pub error : Option (Property Text)

-- `loadFolder` up to its request.
unfoldable pub load_folder : (reset : Bool) → Shared → Shared
load_folder reset f = record f {
  entries = if reset then [] else f.entries;
  next = if reset then none else f.next;
  loading = true;
  error = none;
}

-- A click on a folder or a step: it sets the path and loads anew.
unfoldable pub open_folder : Text → Shared → Shared
unfolding load_folder
open_folder path f = load_folder true (record f { path = path })

-- A page that comes, for whichever request.
unfoldable pub page_came : (Text → Text → Bool) → List Entry → Option Text → Shared → Shared
unfolding sort_by entry_leb
page_came leb_name es n f = record f {
  entries = sort_by (entry_leb leb_name) (f.entries ++ es);
  next = n;
  loading = false;
}

unfoldable pub load_failed : Property Text → Shared → Shared
load_failed e f = record f { loading = false; error = some e }

-- `join`
unfoldable pub join_name : (directory name : Text) → Text
join_name directory name =
    if same directory (codes "/") then b'/' ∷ name else directory ++ b'/' ∷ name

walk : Text → List Text → List (Text × Text)
walk walked [] = []
walk walked (p ∷ ps) = (p, join_name walked p) ∷ walk (join_name walked p) ps

-- The steps of `crumbs` below the link's own folder.
unfoldable pub steps : (path : Text) → List (Text × Text)
unfolding walk join_name segments
steps path = walk (codes "/") (segments path)

-- Where a folder is opened while another one is still loading, the entries of both end up in the
-- list under the second one's path: each of the two pages is added when it comes.
pub open_folder_twice :
    (leb_name : Text → Text → Bool) (a b : Text) (es ds : List Entry) (m n : Option Text)
    (f : Shared) (p : Entry → Bool)
    → let after =
        page_came leb_name ds n (page_came leb_name es m (open_folder b (open_folder a f))) in
      (after.path ≡ b) × (count p after.entries ≡ count p es + count p ds)
unfolding open_folder load_folder page_came
open_folder_twice leb_name a b es ds m n f p = (
  refl,
  ground (
    arith,
    count-sort_by p (entry_leb leb_name) (sort_by (entry_leb leb_name) es ++ ds),
    count-append p (sort_by (entry_leb leb_name) es) ds,
    count-sort_by p (entry_leb leb_name) es,
  ),
)

walk-crumbs_from :
    (c d : ℕ) (v : Text) (ps : List Text) → walk (c ∷ d ∷ v) ps ≡ crumbs_from (c ∷ d ∷ v) ps
unfolding walk join_name crumbs_from
walk-crumbs_from c d v [] = refl
walk-crumbs_from c d v (p ∷ ps) = ground (arith, walk-crumbs_from c d (v ++ b'/' ∷ p) ps)

walk_root :
    (ps : List Text) → All (λ p. non_empty p ≡ true) ps → walk (codes "/") ps ≡ crumbs_from [] ps
unfolding walk join_name crumbs_from
walk_root [] h = refl
walk_root ([] ∷ ps) (n, h) = ground (arith, n)
walk_root ((c ∷ p) ∷ ps) (n, h) = ground (arith, walk-crumbs_from b'/' c p ps)

kept_non_empty : (ps : List Text) → All (λ p. non_empty p ≡ true) (keep non_empty ps)
kept_non_empty [] = tt
kept_non_empty (p ∷ ps) = ground (arith, kept_non_empty ps)

-- The steps of this page are those that the portal shows below a root, for every path.
pub steps-crumbs_from : (path : Text) → steps path ≡ crumbs_from [] (segments path)
unfolding steps segments
steps-crumbs_from path =
    walk_root (keep non_empty (split b'/' path)) (kept_non_empty (split b'/' path))
