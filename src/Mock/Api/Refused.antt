-- ===== src/Mock/Api/Refused.antt =====
-- tool/portal_mock_server.js, lines 208-293: a request that is refused changes nothing.
use vault_box.Base.{if◌then◌else◌, ◌≡◌, refl, arith, Bool, true, false}
use vault_box.Mock.Server.{Server, Request, Reply, error, not_allowed, bad_range, Json, Payload}
use vault_box.Mock.Api.{
  login, login_body, login_as, issue_ticket, issue_parsed, issue, content_action, content_at,
  write_content, Fields,
}

-- A reply with a status of 400 or more, by the server's own decision.
abbrev pub is_refusal : Reply → Bool
is_refusal (error status code) = true
is_refusal (not_allowed allow) = true
is_refusal (bad_range size) = true
is_refusal r = false

-- What is refused leaves the server as it was.
unfoldable pub KeepsOnRefusal : Server → Server × Reply → Type 0
KeepsOnRefusal s out = is_refusal out.1 ≡ true → out.0 ≡ s

-- A reply that comes with the same server.
pub same_server : (s : Server) (r : Reply) → KeepsOnRefusal s (s, r)
unfolding KeepsOnRefusal
same_server s r h = refl

pub if-KeepsOnRefusal :
    (s : Server) (b : Bool) (x y : Server × Reply)
    → KeepsOnRefusal s x
    → KeepsOnRefusal s y
    → KeepsOnRefusal s (if b then x else y)
unfolding KeepsOnRefusal
if-KeepsOnRefusal s true x y k l = k
if-KeepsOnRefusal s false x y k l = l

login_as-KeepsOnRefusal :
    (s : Server) (r : Request) (u p : Json) → KeepsOnRefusal s (login_as s r u p)
unfolding KeepsOnRefusal login_as
login_as-KeepsOnRefusal s r u p h = ground (arith, h)

pub login-KeepsOnRefusal : (s : Server) (r : Request) → KeepsOnRefusal s (login s r)
unfolding KeepsOnRefusal login login_body
login-KeepsOnRefusal s r h =
    ground (arith, h, λ (f : Fields). login_as-KeepsOnRefusal s r f.username f.password)

pub issue_ticket-KeepsOnRefusal :
    (s : Server) (r : Request) (b : Payload) → KeepsOnRefusal s (issue_ticket s r b)
unfolding KeepsOnRefusal issue_ticket issue_parsed issue
issue_ticket-KeepsOnRefusal s r b h = ground (arith, h)

pub content_action-KeepsOnRefusal :
    (w : Bool) (s : Server) (r : Request) → KeepsOnRefusal s (content_action w s r)
unfolding KeepsOnRefusal content_action content_at write_content
content_action-KeepsOnRefusal w s r h = ground (arith, h)
