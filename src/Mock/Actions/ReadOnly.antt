-- ===== src/Mock/Actions/ReadOnly.antt =====
-- tool/portal_mock_server.js, lines 240-373: the root that cannot be written to.
use vault_box.Base.{◌≡◌, arith, false, List, Text}
use vault_box.Mock.Server.{Server, Request}
use vault_box.Mock.Api.Invariant.{issue_ticket-tree}
use vault_box.Mock.Api.Store.{content_action-read_only}
use vault_box.Mock.Actions.{root_action, change_action}

-- No request for a root that is read-only changes the tree, whatever its action, method, path and
-- body are.
pub root_action-read_only :
    (s : Server) (r : Request) (segs : List Text) → (root_action false s r segs).0.tree ≡ s.tree
unfolding root_action change_action
root_action-read_only s r segs =
    ground (arith, issue_ticket-tree s r r.body, content_action-read_only s r)
