-- ===== src/PublicPage/Password/Opens.antt =====
-- assets/portal/public.js, lines 173-208 and 403-420, with tool/portal_mock_server.js, lines 55-85: the
-- right password opens a link.
use vault_box.Mock.Server.{Server, LinkInfo}
use vault_box.Mock.Server
use vault_box.PublicPage.Flow.{Info}
use vault_box.PublicPage.Password.{unlocked}

-- The description of a link as the page reads it.
abbrev pub info_of : LinkInfo → Info
info_of i = record {
  kind = i.kind;
  is_directory = i.is_directory;
  requires_password = i.requires_password;
  unlocked = i.unlocked;
}
