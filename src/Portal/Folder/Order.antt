-- ===== src/Portal/Folder/Order.antt =====
-- assets/portal/portal.js, lines 634-665: the order and the number of the entries that are shown.
use vault_box.Base.{
  ◌≡◌, refl, arith, ℕ, suc, ◌+◌, Bool, true, false, List, [], ◌∷◌, ◌++◌, Text, All, if◌then◌else◌,
  inr, Option, ◌⊎◌,
}
use vault_box.Portal.Folder.{Entry, Folder, entry_leb, insert, sort_by, page, shown, loaded}

module _ (P : Entry → Type 0) (le : Entry → Entry → Bool) where
  All-insert : (a : Entry) (bs : List Entry) → P a → All P bs → All P (insert le a bs)
  unfolding insert
  All-insert a [] p h = (p, tt)
  All-insert a (b ∷ bs) p (q, h) = ground (arith, All-insert a bs p h)

-- No directory stands after a file.
abbrev pub HasDirectoriesFirst : List Entry → Type 0
HasDirectoriesFirst [] = Unit
HasDirectoriesFirst (e ∷ es) =
    ((e.is_directory ≡ true) ⊎ All (λ d. d.is_directory ≡ false) es) × HasDirectoriesFirst es

module _ (leb_name : Text → Text → Bool) where
  insert-HasDirectoriesFirst :
      (a : Entry) (bs : List Entry)
      → HasDirectoriesFirst bs
      → HasDirectoriesFirst (insert (entry_leb leb_name) a bs)
  unfolding insert entry_leb
  insert-HasDirectoriesFirst a [] h = (inr tt, tt)
  insert-HasDirectoriesFirst a (b ∷ bs) (h, hs) = ground (
    arith,
    h,
    hs,
    insert-HasDirectoriesFirst a bs hs,
    All-insert (λ d. d.is_directory ≡ false) (entry_leb leb_name) a bs,
  )

  sort_by-HasDirectoriesFirst :
      (es : List Entry) → HasDirectoriesFirst (sort_by (entry_leb leb_name) es)
  unfolding sort_by
  sort_by-HasDirectoriesFirst [] = tt
  sort_by-HasDirectoriesFirst (e ∷ es) =
      insert-HasDirectoriesFirst e (sort_by (entry_leb leb_name) es)
        (sort_by-HasDirectoriesFirst es)

-- How many of the entries a test holds for.
unfoldable pub count : (Entry → Bool) → List Entry → ℕ
count p [] = 0
count p (e ∷ es) = if p e then suc (count p es) else count p es

module _ (p : Entry → Bool) where
  pub count-append : (es ds : List Entry) → count p (es ++ ds) ≡ count p es + count p ds
  unfolding count
  count-append [] ds = ground arith
  count-append (e ∷ es) ds = ground (arith, count-append es ds)

  count-insert :
      (le : Entry → Entry → Bool) (a : Entry) (bs : List Entry)
      → count p (insert le a bs) ≡ count p (a ∷ bs)
  unfolding count insert
  count-insert le a [] = refl
  count-insert le a (b ∷ bs) = ground (arith, count-insert le a bs)

  pub count-sort_by :
      (le : Entry → Entry → Bool) (es : List Entry) → count p (sort_by le es) ≡ count p es
  unfolding count sort_by
  count-sort_by le [] = refl
  count-sort_by le (e ∷ es) = ground (arith, count-insert le e (sort_by le es), count-sort_by le es)

-- The page that the current load gets is added to what is shown: each of its entries as often as
-- it is there, nothing else, and in the whole list no directory stands after a file, whatever the
-- collator says.
pub loaded-page :
    (leb_name : Text → Text → Bool) (f : Folder) (es : List Entry) (n : Option Text)
    (p : Entry → Bool)
    → HasDirectoriesFirst (loaded leb_name f.load_counter (page es n) f).entries
      × (count p (loaded leb_name f.load_counter (page es n) f).entries
          ≡ count p f.entries + count p es)
unfolding loaded shown
loaded-page leb_name f es n p = (
  ground (arith, sort_by-HasDirectoriesFirst leb_name (f.entries ++ es)),
  ground
      (arith, count-sort_by p (entry_leb leb_name) (f.entries ++ es), count-append p f.entries es),
)
