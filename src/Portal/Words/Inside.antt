-- ===== src/Portal/Words/Inside.antt =====
-- assets/portal/portal.js, lines 167-176: the paths of items in a folder, as the server reads them.
use vault_box.Base.{
  ◌≡◌, refl, sym, ap, subst, ◌≢◌, false, some, arith, List, [], ◌∷◌, ◌++◌, append_assoc, All,
  All-append, Text, codes, same, join, text_dec, same_iff, ℕ, zero, suc, take, ◌==◌, if◌then◌else◌,
  Option, none, last_index_of, ◌∙◌,
}
use vault_box.Mock.Tree.{parent_of, slash, is_reserved}
use vault_box.Mock.Tree.Paths.{IsSafe, IsSafePath, is_reserved-snoc, is_reserved-init}
use vault_box.Portal.Words.Paths.{parent_path-join_path}
use vault_box.Portal.Words.{join_path, parent_path}

-- What an item of a folder is called: a safe part, and not the name of the server's own directory
-- in the root's top folder.
abbrev pub IsNameIn : Text → Text → Type 0
IsNameIn path name = IsSafe name × (path ≡ slash → is_reserved (name ∷ []) ≡ false)

join-snoc :
    (s : Text) (segs : List Text) (name : Text)
    → join (s ∷ segs ++ name ∷ []) ≡ join (s ∷ segs) ++ b'/' ∷ name
unfolding join
join-snoc s [] name = refl
join-snoc s (t ∷ segs) name =
    rw (join-snoc t segs name) (sym (append_assoc s (b'/' ∷ join (t ∷ segs)) (b'/' ∷ name)))

join_path-join :
    (segs : List Text) (name : Text)
    → All IsSafe segs
    → join_path (b'/' ∷ join segs) name ≡ b'/' ∷ join (segs ++ name ∷ [])
unfolding join_path join text_dec
join_path-join [] name h = refl
join_path-join ([] ∷ segs) name (p, h) = absurd (p.0 refl)
join_path-join ((c ∷ s) ∷ []) name h = refl
join_path-join ((c ∷ s) ∷ t ∷ segs) name h =
    ap (λ u. b'/' ∷ u) (sym (join-snoc (c ∷ s) (t ∷ segs) name))

-- An item of a folder with a safe path has a safe path.
pub join_path-IsSafePath :
    (path name : Text) → IsSafePath path → IsNameIn path name → IsSafePath (join_path path name)
join_path-IsSafePath path name s (safe, open_to_all) = record {
  segs = s.segs ++ name ∷ [];
  path =
      subst (λ q. join_path q name ≡ b'/' ∷ join (s.segs ++ name ∷ [])) (sym s.path)
        (join_path-join s.segs name s.safe);
  safe = All-append IsSafe s.segs (name ∷ []) s.safe (safe, tt);
  open_to_all =
      is_reserved-snoc s.segs name s.open_to_all
        (λ e. open_to_all (subst (λ q. q ≡ slash) (sym s.path) e));
}

tail_filled : (path name : Text) → path ++ b'/' ∷ name ≢ []
tail_filled [] name e = cc
tail_filled (c ∷ path) name e = cc

-- It is not the root's top folder.
pub join_path_not_root : (path name : Text) → name ≢ [] → same (join_path path name) slash ≡ false
unfolding join_path
join_path_not_root [] name h = grind (arith, same_iff)
join_path_not_root (c ∷ path) name h = grind (arith, same_iff, tail_filled path name)

parent-cases :
    (p : Text) (o : Option ℕ)
    → elim o as (λ i. Text) [ none ↦ codes "/" | some i ↦ if i == 0 then slash else take i p ]
      ≡ elim o as (λ i. Text) [
        | none ↦ codes "/"
        | some zero ↦ codes "/"
        | some (suc k) ↦ take (suc k) p
      ]
parent-cases p none = refl
parent-cases p (some zero) = refl
parent-cases p (some (suc k)) = ground arith

-- The server and the portal agree on the folder that an item is in.
pub parent_of-parent_path : (p : Text) → parent_of p ≡ parent_path p
unfolding parent_of parent_path
parent_of-parent_path p = parent-cases p (last_index_of b'/' p)

-- A list of parts is empty or has a last one.
data Snoc : List Text → Type 0 where
  empty : Snoc []
  snoc : (init : List Text) (last : Text) → Snoc (init ++ last ∷ [])

Snoc-cons : (s : Text) {segs : List Text} → Snoc segs → Snoc (s ∷ segs)
Snoc-cons s empty = snoc [] s
Snoc-cons s (snoc init last) = snoc (s ∷ init) last

Snoc-view : (segs : List Text) → Snoc segs
Snoc-view [] = empty
Snoc-view (s ∷ segs) = Snoc-cons s (Snoc-view segs)

All-init :
    (init : List Text) {last : Text}
    → All IsSafe (init ++ last ∷ [])
    → All IsSafe init × IsSafe last
All-init [] (p, h) = (tt, p)
All-init (s ∷ init) (p, h) = let (q, k) = All-init init h in ((p, q), k)

parent-join :
    {segs : List Text}
    → Snoc segs
    → All IsSafe segs
    → is_reserved segs ≡ false
    → IsSafePath (parent_path (b'/' ∷ join segs))
unfolding parent_path join
parent-join empty h r = record { segs = []; path = refl; safe = tt; open_to_all = r }
parent-join (snoc init last) h r =
    let (q, k) = All-init init h in
    record {
      segs = init;
      path =
          ap parent_path (sym (join_path-join init last q))
          ∙ parent_path-join_path (b'/' ∷ join init) last k.2 (λ e. not_slash e);
      safe = q;
      open_to_all = is_reserved-init init last r;
    }
  where
    not_slash : {t : Text} → b'/' ∷ t ≢ []
    not_slash e = cc

-- The folder that a safe path is in has a safe path too.
pub parent_path-IsSafePath : {path : Text} → IsSafePath path → IsSafePath (parent_path path)
parent_path-IsSafePath s =
    subst (λ q. IsSafePath (parent_path q)) (sym s.path)
      (parent-join (Snoc-view s.segs) s.safe s.open_to_all)
