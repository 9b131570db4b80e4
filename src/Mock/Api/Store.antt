-- ===== src/Mock/Api/Store.antt =====
-- tool/portal_mock_server.js, lines 273-293: what the actions on one path leave in the tree.
use vault_box.Base.{◌≡◌, arith, false}
use vault_box.Base.Dict
use vault_box.Mock.Server.{Server, Request}
use vault_box.Mock.Api.{content_action, content_at, write_content}

pub content_action-read_only : (s : Server) (r : Request) → (content_action false s r).0 ≡ s
unfolding content_action content_at write_content
content_action-read_only s r = ground arith
