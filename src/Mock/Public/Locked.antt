-- ===== src/Mock/Public/Locked.antt =====
-- tool/portal_mock_server.js, lines 60-88: a link whose password was not given.
use vault_box.Base.{◌≡◌, refl, arith, false, Option, Text}
use vault_box.Mock.Tree.{Tree}
use vault_box.Mock.Server.{Server, Request, Link, Payload}
use vault_box.Mock.Public.{is_open, link_action, describe, unlock_link, unlock_with, check_password}

unlock_link-reply :
    (s : Server) (tree : Tree) (r : Request) (p : Option Text) (b : Payload)
    → (unlock_link (record s { tree = tree }) r p b).1 ≡ (unlock_link s r p b).1
unfolding unlock_link unlock_with check_password
unlock_link-reply s tree r p b = ground arith

describe-closed :
    (s : Server) (tree : Tree) (link : Link)
    → describe (record s { tree = tree }) link false ≡ describe s link false
unfolding describe
describe-closed s tree link = refl

-- Until a link's password is given, no reply of the link depends on what the storage holds: the
-- same request on any other tree gets the same reply, whatever its action and method are.
pub link_action-closed :
    (s : Server) (tree : Tree) (r : Request) (token : Text) (link : Link) (action : Option Text)
    → is_open s r link ≡ false
    → (link_action (record s { tree = tree }) r token link action).1
      ≡ (link_action s r token link action).1
unfolding link_action
link_action-closed s tree r token link action h =
    ground (arith, h, describe-closed s tree link, unlock_link-reply s tree r link.password r.body)
