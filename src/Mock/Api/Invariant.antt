-- ===== src/Mock/Api/Invariant.antt =====
-- tool/portal_mock_server.js, lines 212-293: the tree behind signing in, tickets and uploads.
use vault_box.Base.{◌≡◌, ◌≢◌, refl, inl, inr, ◌⊎◌, arith, Bool, Option, Text, []}
use vault_box.Mock.Tree.{file, at, parse_path, name_of, slash, Parsed}
use vault_box.Mock.Tree.Wellformed.{IsTree, set-IsTree, IsSafePath-named}
use vault_box.Mock.Tree.Paths.{parse_path-IsSafePath}
use vault_box.Mock.Server.{Server, Request, Payload}
use vault_box.Mock.Api.{
  login, login_body, login_as, issue_ticket, issue_parsed, issue, content_action, content_at,
  write_content,
}

-- A parsed path that is not the root may be a key.
pub parsed-named :
    (raw : Option Text) (p : Text) → parse_path raw ≡ at p → p ≢ slash → name_of p ≢ []
parsed-named raw p e h = IsSafePath-named p (parse_path-IsSafePath raw e) h

-- A parse is an error or a path.
pub Parsed-cases :
    (q : Parsed) → ((q ≡ Parsed.null) ⊎ (q ≡ Parsed.reserved)) ⊎ ((p : Text) × (q ≡ at p))
Parsed-cases Parsed.null = inl (inl refl)
Parsed-cases Parsed.reserved = inl (inr refl)
Parsed-cases (at p) = inr (p, refl)

pub login-tree : (s : Server) (r : Request) → (login s r).0.tree ≡ s.tree
unfolding login login_body login_as
login-tree s r = ground arith

-- A login changes the sessions only.
pub login_kept :
    (s : Server) (r : Request)
    → ((login s r).0.tree ≡ s.tree)
      × ((login s r).0.tickets ≡ s.tickets)
      × ((login s r).0.links ≡ s.links)
      × ((login s r).0.unlocks ≡ s.unlocks)
unfolding login login_body login_as
login_kept s r = ground arith

pub issue_ticket-tree :
    (s : Server) (r : Request) (b : Payload) → (issue_ticket s r b).0.tree ≡ s.tree
unfolding issue_ticket issue_parsed issue
issue_ticket-tree s r b = ground arith

write_content-IsTree :
    (w : Bool) (s : Server) (r : Request) (p : Text)
    → name_of p ≢ []
    → IsTree s.tree
    → IsTree (write_content w s r p).0.tree
unfolding write_content
write_content-IsTree w s r p h v = ground (arith, set-IsTree p (file r.bytes r.now) s.tree h v)

content_at-IsTree :
    (w : Bool) (s : Server) (r : Request) (p : Text)
    → (p ≢ slash → name_of p ≢ [])
    → IsTree s.tree
    → IsTree (content_at w s r p).0.tree
unfolding content_at
content_at-IsTree w s r p h v =
    ground (arith, λ (q : p ≢ slash). write_content-IsTree w s r p (h q) v)

pub content_action-IsTree :
    (w : Bool) (s : Server) (r : Request) → IsTree s.tree → IsTree (content_action w s r).0.tree
unfolding content_action
content_action-IsTree w s r v = elim (Parsed-cases (parse_path r.path)) [
  | inl e ↦ ground arith
  | inr (p, e) ↦ rw (e, content_action) (content_at-IsTree w s r p (parsed-named r.path p e) v)
]
