-- ===== src/Mock/Public/Refused.antt =====
-- tool/portal_mock_server.js, lines 55-115: a request to a public link that is refused changes nothing.
use vault_box.Base.{arith, Option, none, Text, trim}
use vault_box.Mock.Server.{Server, Request, Link, Payload}
use vault_box.Mock.Api.Refused.{KeepsOnRefusal, same_server, if-KeepsOnRefusal}
use vault_box.Mock.Public.{
  public_api, receive, receive_upload, found_action, link_action, open_action, inherited_action,
  unlock_link, unlock_with, check_password, Property, own, inherited, missing, name_param,
}

unlock_link-KeepsOnRefusal :
    (s : Server) (r : Request) (p : Option Text) (b : Payload)
    → KeepsOnRefusal s (unlock_link s r p b)
unfolding KeepsOnRefusal unlock_link unlock_with check_password
unlock_link-KeepsOnRefusal s r p b h = ground (arith, h)

receive_upload-KeepsOnRefusal :
    (s : Server) (r : Request) (token : Text) (link : Link) (name : Text)
    → KeepsOnRefusal s (receive_upload s r token link name)
unfolding KeepsOnRefusal receive_upload receive
receive_upload-KeepsOnRefusal s r token link name h = ground (arith, h)

module _ (s : Server) (r : Request) where
  open_action-KeepsOnRefusal :
      (token : Text) (link : Link) (action : Option Text)
      → KeepsOnRefusal s (open_action s r token link action)
  unfolding open_action
  open_action-KeepsOnRefusal token link action =
      search
        (
          if-KeepsOnRefusal,
          same_server,
          receive_upload-KeepsOnRefusal s r token link (trim (name_param r.name)),
        )
        depth 12

  link_action-KeepsOnRefusal :
      (token : Text) (link : Link) (action : Option Text)
      → KeepsOnRefusal s (link_action s r token link action)
  unfolding link_action
  link_action-KeepsOnRefusal token link action =
      search
        (
          if-KeepsOnRefusal,
          same_server,
          unlock_link-KeepsOnRefusal s r link.password r.body,
          open_action-KeepsOnRefusal token link action,
        )
        depth 12

  inherited_action-KeepsOnRefusal :
      (action : Option Text) → KeepsOnRefusal s (inherited_action s r action)
  unfolding inherited_action
  inherited_action-KeepsOnRefusal action =
      search (if-KeepsOnRefusal, same_server, unlock_link-KeepsOnRefusal s r none r.body) depth 12

  found_action-KeepsOnRefusal :
      (token : Text) (action : Option Text) (q : Property Link)
      → KeepsOnRefusal s (found_action s r token action q)
  unfolding found_action
  found_action-KeepsOnRefusal token action (own link) = link_action-KeepsOnRefusal token link action
  found_action-KeepsOnRefusal token action inherited = inherited_action-KeepsOnRefusal action
  found_action-KeepsOnRefusal token action missing = same_server _ _

  pub public_api-KeepsOnRefusal : KeepsOnRefusal s (public_api s r)
  unfolding public_api
  public_api-KeepsOnRefusal = found_action-KeepsOnRefusal _ _ _
