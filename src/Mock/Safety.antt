-- ===== src/Mock/Safety.antt =====
-- tool/portal_mock_server.js, lines 383-415: what no request does, whatever it holds.
use vault_box.Base.{◌≡◌, refl, arith, List, [], ◌∷◌, codes, starts_with, if◌then◌else◌, true}
use vault_box.Mock.Tree.Wellformed.{IsTree}
use vault_box.Mock.Server.{Server, Request}
use vault_box.Mock.Actions.{api}
use vault_box.Mock.Actions.Invariant.{api-IsTree}
use vault_box.Mock.Public.Invariant.{public_api-IsTree}
use vault_box.Mock.Public.Refused.{public_api-KeepsOnRefusal}
use vault_box.Mock.Actions.Refused.{api-KeepsOnRefusal}
use vault_box.Mock.Api.Refused.{is_refusal, KeepsOnRefusal, same_server, if-KeepsOnRefusal}
use vault_box.Mock.Http.{handle, site}
use vault_box.Mock.Public.{public_api}

-- Which handler answers, with the handlers shut.
handle_lem :
    (s : Server) (r : Request)
    → handle s r ≡ (
        if starts_with r.pathname (codes "/api/v1/public/")
        then public_api s r
        else if starts_with r.pathname (codes "/api/v1/")
        then api s r
        else (s, site s r))
unfolding handle
handle_lem s r = refl

-- One request.
pub handle-IsTree : (s : Server) (r : Request) → IsTree s.tree → IsTree (handle s r).0.tree
handle-IsTree s r v = rw handle_lem (ground (arith, public_api-IsTree s r v, api-IsTree s r v))

-- Requests in any order and number.
abbrev pub run : Server → List Request → Server
run s [] = s
run s (r ∷ rs) = run (handle s r).0 rs

-- Whatever requests come, in any order and number, and however they fail: if the keys of the tree
-- are distinct and each has a name before them, so it is behind them.
pub run-IsTree : (s : Server) (rs : List Request) → IsTree s.tree → IsTree (run s rs).tree
run-IsTree s [] v = v
run-IsTree s (r ∷ rs) v = run-IsTree (handle s r).0 rs (handle-IsTree s r v)

handle-KeepsOnRefusal : (s : Server) (r : Request) → KeepsOnRefusal s (handle s r)
handle-KeepsOnRefusal s r =
    rw handle_lem (
      search
        (if-KeepsOnRefusal, same_server, public_api-KeepsOnRefusal s r, api-KeepsOnRefusal s r))

-- Whatever is wrong with a request, where its reply is one of the server's errors, as it is for a
-- bad path, a wrong method, a missing token, a conflict or a body that cannot be read, no file,
-- session, ticket, link or unlock has changed.
pub handle_refused :
    (s : Server) (r : Request) → is_refusal (handle s r).1 ≡ true → (handle s r).0 ≡ s
unfolding KeepsOnRefusal
handle_refused s r h = handle-KeepsOnRefusal s r h
