-- ===== src/Mock/Tree/Paths.antt =====
-- tool/portal_mock_server.js, lines 146-156: what the path parser accepts.
use vault_box.Base.{
  ◌≡◌, refl, sym, ap, ◌≢◌, false, Option, none, some, arith, List, [], ◌∷◌, ◌++◌, append_assoc,
  append-nil, subst, text_dec, All, All-append, Text, codes, IsFree, split, join, split-join,
  split-All,
}
use vault_box.Mock.Tree.{at, slash, gather, is_reserved, forward, parse_segs, parse_path}

-- A path part that names one child of a directory, whatever reads it later.
abbrev pub IsSafe : Text → Type 0
IsSafe seg = (seg ≢ []) × (seg ≢ codes "..") × IsFree b'/' seg × IsFree b'\\' seg

-- Absolute, made of safe parts, and outside the server's own directory.
pub record IsSafePath (p : Text) : Type 0 where
  pub segs : List Text
  pub path : p ≡ b'/' ∷ join segs
  pub safe : All IsSafe segs
  pub open_to_all : is_reserved segs ≡ false

-- Neither separator.
abbrev NoSep : Text → Type 0
NoSep s = All (λ d. (d ≢ b'/') × (d ≢ b'\\')) s

NoSep-slash : (s : Text) → NoSep s → IsFree b'/' s
NoSep-slash [] h = tt
NoSep-slash (c ∷ s) ((p, q), h) = (p, NoSep-slash s h)

NoSep-backslash : (s : Text) → NoSep s → IsFree b'\\' s
NoSep-backslash [] h = tt
NoSep-backslash (c ∷ s) ((p, q), h) = (q, NoSep-backslash s h)

forward-NoSep : (s : Text) → All (λ d. d ≢ b'/' → (d ≢ b'/') × (d ≢ b'\\')) (forward s)
unfolding forward
forward-NoSep [] = tt
forward-NoSep (c ∷ s) = (λ h. (h, ground arith), forward-NoSep s)

gather-IsSafe :
    (segs parts : List Text) {out : List Text}
    → All IsSafe segs
    → All NoSep parts
    → gather segs parts ≡ some out
    → All IsSafe out
unfolding gather
gather-IsSafe segs [] h k e = ground arith
gather-IsSafe segs ([] ∷ parts) h (k, ks) e = gather-IsSafe segs parts h ks (ground arith)
gather-IsSafe segs ((c ∷ part) ∷ parts) h (k, ks) e =
    gather-IsSafe (segs ++ (c ∷ part) ∷ []) parts
      (All-append IsSafe segs _ h
        ((λ q. cc, ground arith, NoSep-slash (c ∷ part) k, NoSep-backslash (c ∷ part) k), tt))
      ks (ground arith)

parse_segs-IsSafe :
    (found : Option (List Text)) {p : Text}
    → ((out : List Text) → found ≡ some out → All IsSafe out)
    → parse_segs found ≡ at p
    → IsSafePath p
unfolding parse_segs
parse_segs-IsSafe none h e = cc
parse_segs-IsSafe (some segs) {p} h e = record {
  segs = segs;
  path = ground arith;
  safe = h segs refl;
  open_to_all = ground arith;
}

-- Whatever text a client sends, the parser refuses it or gives an absolute path of non-empty parts
-- without "..", slashes or backslashes, whose first part is not the server's own directory.
pub parse_path-IsSafePath : (raw : Option Text) {p : Text} → parse_path raw ≡ at p → IsSafePath p
unfolding parse_path
parse_path-IsSafePath none e =
    parse_segs-IsSafe (gather [] (split b'/' slash))
      (λ out f. gather-IsSafe [] (split b'/' slash) tt (tt, (tt, tt)) f) e
parse_path-IsSafePath (some raw) e =
    parse_segs-IsSafe _
      (λ out f.
        gather-IsSafe [] _ tt
          (split-All (λ d. (d ≢ b'/') × (d ≢ b'\\')) b'/' (forward raw) (forward-NoSep raw)) f)
      e

gather_of_IsSafe :
    (segs parts : List Text) → All IsSafe parts → gather segs parts ≡ some (segs ++ parts)
unfolding gather
gather_of_IsSafe segs [] h = ap some (sym (append-nil segs))
gather_of_IsSafe segs ([] ∷ parts) (p, h) = absurd (p.0 refl)
gather_of_IsSafe segs ((c ∷ part) ∷ parts) (p, h) = ground (
  arith,
  gather_of_IsSafe (segs ++ (c ∷ part) ∷ []) parts h,
  append_assoc segs ((c ∷ part) ∷ []) parts,
)

forward_of_NoSep : (s : Text) → IsFree b'\\' s → forward s ≡ s
unfolding forward
forward_of_NoSep [] h = refl
forward_of_NoSep (c ∷ s) (p, h) = ground (arith, forward_of_NoSep s h)

IsFree-join : (segs : List Text) → All IsSafe segs → IsFree b'\\' (join segs)
unfolding join
IsFree-join [] h = tt
IsFree-join (s ∷ []) (p, _) = p.3
IsFree-join (s ∷ t ∷ segs) (p, h) =
    All-append (λ d. d ≢ b'\\') s _ p.3 ((λ q. omega arith), IsFree-join (t ∷ segs) h)

All-slash : (segs : List Text) → All IsSafe segs → All (IsFree b'/') segs
All-slash [] h = tt
All-slash (s ∷ segs) (p, h) = (p.2, All-slash segs h)

parse_segs_of_IsSafe :
    (segs : List Text)
    → All IsSafe segs
    → is_reserved segs ≡ false
    → parse_path (some (b'/' ∷ join segs)) ≡ at (b'/' ∷ join segs)
unfolding parse_path text_dec
parse_segs_of_IsSafe [] h r = ground arith
parse_segs_of_IsSafe (s ∷ segs) h r = rw (
  forward_of_NoSep (join (s ∷ segs)) (IsFree-join (s ∷ segs) h),
  split-join s segs h.0.2 (All-slash segs h.1),
  gather_of_IsSafe [] (s ∷ segs) h,
  r,
)

pub is_reserved-snoc :
    (segs : List Text) (name : Text)
    → is_reserved segs ≡ false
    → (b'/' ∷ join segs ≡ slash → is_reserved (name ∷ []) ≡ false)
    → is_reserved (segs ++ name ∷ []) ≡ false
unfolding is_reserved join
is_reserved-snoc [] name h k = k refl
is_reserved-snoc (s ∷ segs) name h k = h

pub is_reserved-init :
    (init : List Text) (last : Text)
    → is_reserved (init ++ last ∷ []) ≡ false
    → is_reserved init ≡ false
unfolding is_reserved
is_reserved-init [] last h = refl
is_reserved-init (s ∷ init) last h = h

-- The parser reads each of these paths back as it is.
pub parse_path_of_IsSafePath : {p : Text} → IsSafePath p → parse_path (some p) ≡ at p
parse_path_of_IsSafePath s =
    subst (λ q. parse_path (some q) ≡ at q) (sym s.path)
      (parse_segs_of_IsSafe s.segs s.safe s.open_to_all)

-- A path that the parser gave out is read back unchanged, so no later parse can lead elsewhere.
pub parse_path_idem :
    (raw : Option Text) {p : Text} → parse_path raw ≡ at p → parse_path (some p) ≡ at p
parse_path_idem raw e = parse_path_of_IsSafePath (parse_path-IsSafePath raw e)
