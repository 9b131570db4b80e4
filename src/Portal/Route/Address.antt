-- ===== src/Portal/Route/Address.antt =====
-- assets/portal/portal.js, lines 423-446: the address of a folder is read as that folder.
use vault_box.Base.{
  ◌≡◌, refl, sym, arith, Option, some, List, [], ◌∷◌, ◌++◌, Text, IsFree, All, codes, join, true,
  ◌<◌, non_empty, Option-cases, inl, inr, segments, segments-join, segments-slash_join,
  index_of-append, take, drop, length, starts_with, suc,
}
use vault_box.Base.Uri.{encode, decode}
use vault_box.Base.Uri.RoundTrip.{decode-encode}
use vault_box.Base.Uri.Shape.{encode-IsFree, encode-non_empty}
use vault_box.Portal.Words.{path_segments}
use vault_box.Portal.Route.{
  build_hash, parse_hash, hash_of, target_of, cut_at, go_to, route, Root, map_all, is_known, opened,
  Routed,
}

-- A part of a path, as the server gives it: a name that is not empty, without a separator.
abbrev pub IsName : Text → Type 0
IsName s = (non_empty s ≡ true) × IsFree b'/' s × All (λ c. c < 65536) s

map_all-some :
    (f : Text → Option Text) (s : Text) (ss : List Text) {ts : List Text}
    → map_all f (s ∷ ss) ≡ some ts
    → (t : Text) × (us : List Text) × (f s ≡ some t) × (map_all f ss ≡ some us) × (ts ≡ t ∷ us)
unfolding map_all
map_all-some f s ss h = ground (arith, h)

-- What is encoded part by part is still parts of a path, and is decoded part by part.
AreEncoded : List Text → List Text → Type 0
AreEncoded ss es =
    All (IsFree b'/') es × All (λ m. non_empty m ≡ true) es × (map_all decode es ≡ some ss)

encoded :
    (ss : List Text) {es : List Text}
    → All IsName ss
    → map_all encode ss ≡ some es
    → AreEncoded ss es
unfolding AreEncoded map_all
encoded [] h e = ground (arith, e)
encoded (s ∷ ss) ((n, f, c), h) e =
    let (t, us, p, q, w) = map_all-some encode s ss e in
    let (fs, ns, ds) = encoded ss h q in
    rw w (
      (encode-IsFree s p, fs),
      (encode-non_empty s n p, ns),
      ground (arith, decode-encode s c p, ds),
    )

names_IsFree : (ss : List Text) → All IsName ss → All (IsFree b'/') ss
names_IsFree [] h = tt
names_IsFree (s ∷ ss) ((n, f, c), h) = (f, names_IsFree ss h)

names_non_empty : (ss : List Text) → All IsName ss → All (λ m. non_empty m ≡ true) ss
names_non_empty [] h = tt
names_non_empty (s ∷ ss) ((n, f, c), h) = (n, names_non_empty ss h)

take-length : (s t : Text) → take (length s) (s ++ t) ≡ s
take-length [] t = refl
take-length (c ∷ s) t = ground (arith, take-length s t)

drop-suc-length : (s t : Text) → drop (suc (length s)) (s ++ b'/' ∷ t) ≡ t
drop-suc-length [] t = refl
drop-suc-length (c ∷ s) t = drop-suc-length s t

parse_hash_lem :
    (root : Text) (es : List Text)
    → IsFree b'/' root
    → All (IsFree b'/') es
    → All (λ m. non_empty m ≡ true) es
    → parse_hash (codes "#/" ++ root ++ b'/' ∷ join es)
      ≡ target_of (map_all decode es) (decode root)
unfolding parse_hash starts_with cut_at
parse_hash_lem root es h k n =
    rw
      (
        index_of-append b'/' root (join es) h,
        take-length root (b'/' ∷ join es),
        drop-suc-length root (join es),
        segments-join es k n,
      )
      refl

map_all_nil : map_all encode [] ≡ some []
unfolding map_all
map_all_nil = refl

join_nil : join [] ≡ []
unfolding join
join_nil = refl

pub path_segments-join : (ss : List Text) → All IsName ss → path_segments (b'/' ∷ join ss) ≡ ss
unfolding path_segments segments
path_segments-join ss h = segments-slash_join ss (names_IsFree ss h) (names_non_empty ss h)

join-non_empty : (s : Text) (ss : List Text) → non_empty s ≡ true → non_empty (join (s ∷ ss)) ≡ true
unfolding join
join-non_empty [] ss h = ground (arith, h)
join-non_empty (c ∷ s) [] h = refl
join-non_empty (c ∷ s) (t ∷ ss) h = refl

Built : Text → List Text → Text → Type 0
Built root ss hash =
    (r : Text) × (es : List Text) × (encode root ≡ some r)
    × (map_all encode ss ≡ some es)
    × (hash ≡ codes "#/" ++ r ++ b'/' ∷ join es)

build_hash_lem :
    (root : Text) (ss : List Text) {hash : Text}
    → All IsName ss
    → build_hash root (b'/' ∷ join ss) ≡ some hash
    → Built root ss hash
unfolding build_hash hash_of Built
build_hash_lem root [] h b = elim (Option-cases (encode root)) [
  | inl e ↦ ground (arith, e, b)
  | inr (r, e) ↦ (r, [], e, map_all_nil, sym (ground (arith, e, b, join_nil)))
]
build_hash_lem root (s ∷ ss) {hash} (n, h) b = elim (Option-cases (encode root)) [
  | inl e ↦ ground (arith, e, b)
  | inr (r, e) ↦
      let names : path_segments (b'/' ∷ join (s ∷ ss)) ≡ s ∷ ss =
        path_segments-join (s ∷ ss) (n, h) in
      elim (Option-cases (map_all encode (s ∷ ss))) [
        | inl f ↦ ground (arith, e, b, f, names, join-non_empty s ss n.0)
        | inr (es, f) ↦ (r, es, e, f, ground (arith, e, b, f, names, join-non_empty s ss n.0))
      ]
]

-- The address of a folder is read as that folder, for any root's id and any path of names that can
-- be encoded.
pub parse_hash-build_hash :
    (root : Text) (ss : List Text) {hash : Text}
    → All (λ c. c < 65536) root
    → All IsName ss
    → build_hash root (b'/' ∷ join ss) ≡ some hash
    → parse_hash hash ≡ some (record { root_id = root; path = b'/' ∷ join ss })
unfolding target_of AreEncoded Built
parse_hash-build_hash root ss c h b =
    let (r, es, p, q, w) = build_hash_lem root ss h b in
    let (fs, ns, ds) = encoded ss h q in
    rw (w, parse_hash_lem r es (encode-IsFree root p) fs ns, ds, decode-encode root c p) refl

-- Going to a folder of a root that the server has named opens that folder, and no other, wherever
-- its address can be written.
pub go_to-opened :
    (rs : List Root) (root : Text) (ss : List Text) {hash : Text} {routed : Routed}
    → All (λ c. c < 65536) root
    → All IsName ss
    → is_known rs (record { root_id = root; path = b'/' ∷ join ss }) ≡ true
    → go_to true rs root (b'/' ∷ join ss) ≡ some (hash, routed)
    → routed ≡ opened (record { root_id = root; path = b'/' ∷ join ss })
unfolding go_to route
go_to-opened rs root ss c h k g = elim (Option-cases (build_hash root (b'/' ∷ join ss))) [
  | inl e ↦ ground (arith, e, g)
  | inr (hash, e) ↦ ground (arith, e, g, k, parse_hash-build_hash root ss c h e)
]
