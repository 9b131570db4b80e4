-- ===== src/Mock/Actions/Sessions.antt =====
-- tool/portal_mock_server.js, lines 223-227: the session that a logout ends.
use vault_box.Base.{
  text_dec, ◌≡◌, refl, arith, true, false, Text, codes, [], ◌∷◌, same, if◌then◌else◌,
}
use vault_box.Base.Dict
use vault_box.Mock.Server.{Server, Request, logged_out}
use vault_box.Mock.Api.{is_session, bearer}
use vault_box.Mock.Actions.{signed_in, api, api_segs, is_login}
use vault_box.Mock.Actions.Invariant.{api_lem}

signed_in-logout :
    (s : Server) (r : Request) (token : Text)
    → signed_in s r token (codes "auth" ∷ codes "logout" ∷ [])
      ≡ (record s { sessions = Dict.delete token s.sessions }, logged_out)
unfolding signed_in text_dec
signed_in-logout s r token = refl

is_login-logout :
    (r : Request) → api_segs r ≡ codes "auth" ∷ codes "logout" ∷ [] → is_login r ≡ false
unfolding text_dec
is_login-logout r e = rw e refl

-- A request to auth/logout with the token of a session ends that session and no other.
pub is_session-logout :
    (s : Server) (r : Request)
    → api_segs r ≡ codes "auth" ∷ codes "logout" ∷ []
    → is_session s (bearer r.authorization) ≡ true
    → (t : Text)
    → is_session (api s r).0 t ≡ (if same t (bearer r.authorization) then false else is_session s t)
is_session-logout s r e h t =
    rw (api_lem, is_login-logout r e, h, e, signed_in-logout)
      (ground (arith, Dict.get-delete t (bearer r.authorization) s.sessions))
