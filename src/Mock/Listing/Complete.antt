-- ===== src/Mock/Listing/Complete.antt =====
-- tool/portal_mock_server.js, lines 161-169 and 243-259: every page of a directory, together.
use vault_box.Base.Dict
use vault_box.Mock.Tree.{Tree}
