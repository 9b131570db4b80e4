-- ===== src/Portal/Words/Paths.antt =====
-- assets/portal/portal.js, lines 161-168: what `joinPath` and `parentPath` are to each other.
use vault_box.Base.{
  ◌≡◌, ◌≢◌, refl, arith, [], ◌∷◌, ◌++◌, Text, IsFree, last_index_of-append, length, take,
}
use vault_box.Portal.Words.{join_path, parent_path}

take-length : (s t : Text) → take (length s) (s ++ t) ≡ s
take-length [] t = refl
take-length (c ∷ s) t = ground (arith, take-length s t)

cut_at : (d n : Text) → IsFree b'/' n → d ≢ [] → parent_path (d ++ b'/' ∷ n) ≡ d
unfolding parent_path
cut_at [] n h k = ground (arith, k)
cut_at (c ∷ d) n h k =
    ground (arith, last_index_of-append b'/' (c ∷ d) n h, take-length (c ∷ d) (b'/' ∷ n))

-- The parent of an item in a folder is the folder, for an item whose name has no separator and a
-- folder other than the empty text.
pub parent_path-join_path :
    (directory name : Text)
    → IsFree b'/' name
    → directory ≢ []
    → parent_path (join_path directory name) ≡ directory
unfolding join_path parent_path
parent_path-join_path d n h k = ground (arith, cut_at d n h k, last_index_of-append b'/' [] n h)
