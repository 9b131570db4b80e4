-- ===== src/Mock/Public/Opened.antt =====
-- tool/portal_mock_server.js, lines 55-85: a link whose password is given.
use vault_box.Base.{
  ◌≡◌, refl, ap, ◌∙◌, true, false, Option, none, some, ◌∷◌, Text, codes, text_dec, get_elem?,
  one_of, Bool, same_iff,
}
use vault_box.Mock.Serve.{own, property}
use vault_box.Mock.Server.{
  Server, Request, Link, object, Fields, text, LinkInfo, link_info, unlocked,
}
use vault_box.Mock.Public.{
  is_open, link_action, describe, unlock_link, unlock_with, check_password, found_action,
  public_api, public_segs, public_token,
}

-- A request for a link's action, or for its description.
pub record IsFor (s : Server) (link : Link) (method : Text) (action : Option Text) (r : Request)
    : Type 0 where
  pub is_method : r.method ≡ method
  pub has_link : property (public_token r) s.links ≡ own link
  pub has_action : get_elem? (public_segs r) 1 ≡ action

pub public_api-link :
    (s : Server) (r : Request) (link : Link) (method : Text) (action : Option Text)
    → IsFor s link method action r
    → public_api s r ≡ link_action s r (public_token r) link action
unfolding public_api found_action
public_api-link s r link method action i = rw (i.has_link, i.has_action) refl

unlock-right :
    (s : Server) (r : Request) (p : Text) (f : Fields)
    → f.password ≡ text p
    → unlock_link s r (some p) (object f)
      ≡ (record s { unlocks = r.token ∷ s.unlocks }, unlocked (some r.token))
unfolding unlock_link unlock_with check_password
unlock-right s r p f e = rw (e, (same_iff p p).1 refl) refl

link_action-unlock :
    (s : Server) (r : Request) (token : Text) (link : Link)
    → r.method ≡ codes "POST"
    → link_action s r token link (some (codes "unlock")) ≡ unlock_link s r link.password r.body
unfolding link_action text_dec
link_action-unlock s r token link m = rw ((same_iff r.method (codes "POST")).1 m) refl

link_action-info :
    (s : Server) (r : Request) (token : Text) (link : Link)
    → r.method ≡ codes "GET"
    → link_action s r token link none ≡ (s, describe s link (is_open s r link))
unfolding link_action
link_action-info s r token link m = rw ((same_iff r.method (codes "GET")).1 m) refl

is_open-kept :
    (s : Server) (r : Request) (link : Link) (t : Text)
    → r.unlock ≡ some t
    → one_of t s.unlocks ≡ true
    → is_open s r link ≡ true
is_open-kept s r link t u m = go link.password r.unlock u
  where
    go :
        (password unlock : Option Text)
        → unlock ≡ some t
        → elim password as (λ x. Bool) [
          | none ↦ true
          | some p ↦ elim unlock as (λ x. Bool) [ none ↦ false | some v ↦ one_of v s.unlocks ]
        ]
          ≡ true
    go none unlock e = refl
    go (some p) none e = absurd cc
    go (some p) (some v) e = ap one_kept e ∙ m
      where
        one_kept : Option Text → Bool
        one_kept none = false
        one_kept (some w) = one_of w s.unlocks

-- The password is answered with a proof, which is kept.
pub public_api-unlock :
    (s : Server) (r : Request) (link : Link) (f : Fields) (p : Text)
    → IsFor s link (codes "POST") (some (codes "unlock")) r
    → link.password ≡ some p
    → r.body ≡ object f
    → f.password ≡ text p
    → public_api s r ≡ (record s { unlocks = r.token ∷ s.unlocks }, unlocked (some r.token))
public_api-unlock s r link f p i l b e =
    public_api-link s r link _ _ i
    ∙ link_action-unlock s r (public_token r) link i.is_method
    ∙ ap (λ o. unlock_link s r o r.body) l
    ∙ ap (unlock_link s r (some p)) b
    ∙ unlock-right s r p f e

-- Whoever has a proof that is kept is told that the link is unlocked.
pub public_api-info :
    (s : Server) (r : Request) (link : Link) (t : Text)
    → IsFor s link (codes "GET") none r
    → r.unlock ≡ some t
    → one_of t s.unlocks ≡ true
    → (i : LinkInfo) × ((public_api s r).1 ≡ link_info i) × (i.unlocked ≡ true)
unfolding describe
public_api-info s r link t i u m = (
  _,
  ap (λ x. x.1)
      (public_api-link s r link _ _ i ∙ link_action-info s r (public_token r) link i.is_method),
  is_open-kept s r link t u m,
)
