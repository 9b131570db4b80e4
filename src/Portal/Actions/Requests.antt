-- ===== src/Portal/Actions/Requests.antt =====
-- assets/portal/portal.js, lines 292-294 and 948-1022, with tool/portal_mock_server.js, lines
-- 376-415: how a request of the tools reaches the mock server.
use vault_box.Base.{◌≡◌, refl, arith, true, false, some, codes, String, starts_with}
use vault_box.Mock.Server.{Server, Request, Fields}
use vault_box.Mock.Actions.{api}
use vault_box.Mock.Http.{handle}
use vault_box.Mock.Actions.Posts.{IsPost, phone}
use vault_box.Portal.Actions.{Call, call, root_url}

-- The request that the browser makes of a call, in a session of the server.
pub record IsSent (s : Server) (c : Call) (r : Request) : Type 0 where
  pub is_for : r.pathname ≡ c.url
  pub post : IsPost s c.body r

handle-api :
    (s : Server) (r : Request)
    → starts_with r.pathname (codes "/api/v1/public/") ≡ false
    → starts_with r.pathname (codes "/api/v1/") ≡ true
    → handle s r ≡ api s r
unfolding handle
handle-api s r e k = rw (e, k) refl

pub phone-call :
    (f : Fields) (action : String) {c : Call}
    → call (root_url (codes "phone") (codes action)) f ≡ some c
    → (c.url ≡ phone action) × (c.body ≡ f)
unfolding call root_url
phone-call f action e = (ground arith, ground arith)

pub handle-phone :
    (s : Server) (r : Request) (action : String) → r.pathname ≡ phone action → handle s r ≡ api s r
unfolding starts_with
handle-phone s r action e = handle-api s r (rw e refl) (rw e refl)
