-- ===== src/Mock/Api/Sessions.antt =====
-- tool/portal_mock_server.js, lines 212-225: the session that a login opens.
use vault_box.Base.{◌≡◌, arith, Text, same, non_empty, if◌then◌else◌}
use vault_box.Base.Dict
use vault_box.Mock.Server.{Server, Request, logged_in, Json}
use vault_box.Mock.Api.{login, login_body, login_as, is_session, Fields}

login_as-sessions :
    (s : Server) (r : Request) (u p : Json) {token : Text}
    → (login_as s r u p).1 ≡ logged_in token
    → ((login_as s r u p).0.sessions ≡ Dict.set r.token r.now s.sessions) × (token ≡ r.token)
unfolding login_as
login_as-sessions s r u p h = ground (arith, h)

-- A login that is answered with a token opens a session with that token, unless it is empty, and
-- changes no other: what was a session still is one, and nothing else becomes one.
pub is_session-login :
    (s : Server) (r : Request) {token : Text}
    → (login s r).1 ≡ logged_in token
    → (t : Text)
    → is_session (login s r).0 t ≡ (if same t token then non_empty t else is_session s t)
unfolding login login_body
is_session-login s r {token = token} h t = ground (
  arith,
  h,
  λ (f : Fields). login_as-sessions s r f.username f.password {token = token},
  Dict.get-set t r.token r.now s.sessions,
)
