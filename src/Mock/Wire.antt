-- ===== src/Mock/Wire.antt =====
-- tool/portal_mock_server.js, lines 120-144: reading a request's body, and the headers of a reply.
use vault_box.Base.{
  append-nil, subst, ap, ◌∙◌, ◌≡◌, refl, sym, arith, ℕ, ◌+◌, ◌==◌, ltb, Bool, true, false, not,
  ◌&&◌, Option, none, some, if◌then◌else◌, List, [], ◌∷◌, ◌++◌, length, length-append, append_assoc,
  Text, codes, Bool-cases, inl, inr,
}
use vault_box.Base.Dict
use vault_box.Base.Dict.{Dict}

-- No limit, and a limit of 0, let every size pass.
abbrev is_over : Option ℕ → ℕ → Bool
is_over none size = false
is_over (some limit) size = not (limit == 0) && ltb limit size

-- The chunks of a body, one after the other: `size` is what has come, and `chunks` what is kept. A
-- promise that was rejected stays rejected.
read_from : Option ℕ → (size : ℕ) → (chunks : List ℕ) → List (List ℕ) → Option (List ℕ)
read_from limit size chunks [] = some chunks
read_from limit size chunks (c ∷ more) =
    let rest = read_from limit (size + length c) (chunks ++ c) more in
    if is_over limit (size + length c) then none else rest

-- `readBody`; `none` is the error.
unfoldable pub read_body : (limit : Option ℕ) → List (List ℕ) → Option (List ℕ)
unfolding read_from
read_body limit chunks = read_from limit 0 [] chunks

abbrev pub concat : List (List ℕ) → List ℕ
concat [] = []
concat (c ∷ cs) = c ++ concat cs

is_over-more : (limit : Option ℕ) (n k : ℕ) → is_over limit n ≡ true → is_over limit (n + k) ≡ true
is_over-more none n k h = cc
is_over-more (some limit) n k h = ground arith

is_over-zero : (limit : Option ℕ) → is_over limit 0 ≡ false
is_over-zero none = refl
is_over-zero (some limit) = ground arith

over-append :
    (limit : Option ℕ) (n k m : ℕ)
    → is_over limit (n + k) ≡ true
    → is_over limit (n + (k + m)) ≡ true
over-append limit n k m h =
    subst (λ s. is_over limit s ≡ true) (omega arith) (is_over-more limit (n + k) m h)

read_from-all :
    (limit : Option ℕ) (chunks : List ℕ) (more : List (List ℕ))
    → is_over limit (length chunks) ≡ false
    → read_from limit (length chunks) chunks more ≡ (
        if is_over limit (length (chunks ++ concat more))
        then none
        else some (chunks ++ concat more))
unfolding read_from
read_from-all limit chunks [] h = rw (append-nil chunks, h) refl
read_from-all limit chunks (c ∷ more) h =
    elim (Bool-cases (is_over limit (length chunks + length c))) [
      | inl o ↦
          rw
            (
              o,
              length-append chunks (c ++ concat more),
              length-append c (concat more),
              over-append limit (length chunks) (length c) (length (concat more)) o,
            )
            refl
      | inr o ↦
          rw (o, sym (append_assoc chunks c (concat more)), sym (length-append chunks c))
            (read_from-all limit (chunks ++ c) more
              (ap (is_over limit) (length-append chunks c) ∙ o))
    ]

-- However a body is cut into chunks, reading it gives all of its bytes in their order if there are
-- no more of them than the limit, and an error otherwise.
pub read_body-concat :
    (limit : Option ℕ) (chunks : List (List ℕ))
    → read_body limit chunks
      ≡ (if is_over limit (length (concat chunks)) then none else some (concat chunks))
unfolding read_body
read_body-concat limit chunks = read_from-all limit [] chunks (is_over-zero limit)

-- The headers of `send`: those that each reply has, those given, and the type of a body that is sent
-- as JSON.
abbrev all_headers : Dict Text
all_headers =
    (codes "Cache-Control", codes "no-store")
    ∷ (codes "X-Content-Type-Options", codes "nosniff")
    ∷ (codes "Referrer-Policy", codes "no-referrer")
    ∷ (codes "Content-Security-Policy", codes "default-src 'none'")
    ∷ []

pub assign : Dict Text → Dict Text → Dict Text
unfolding Dict.set
assign target [] = target
assign target ((k, v) ∷ rest) = assign (Dict.set k v target) rest

pub data Body : Type 0 where
  no_body : Body
  as_is : Body
  as_json : Body

unfoldable pub reply_headers : Body → (given : Dict Text) → Dict Text
unfolding assign Dict.set
reply_headers as_json given =
    Dict.set (codes "Content-Type") (codes "application/json") (assign all_headers given)
reply_headers b given = assign all_headers given
