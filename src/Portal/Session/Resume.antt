-- ===== src/Portal/Session/Resume.antt =====
-- assets/portal/portal.js, lines 298-322 and 398-420: what is remembered of a session.
use vault_box.Base.{◌≡◌, arith, List, [], ◌∷◌}
use vault_box.Portal.Session.{
  Session, Event, receive, end_session, sign_out, logged_in, entered, not_entered, step,
}

-- The session after events, in their order.
pub after : Session → List Event → Session
after s [] = s
after s (e ∷ es) = after (step s e) es

step-stored :
    (s : Session) (e : Event)
    → s.stored_token ≡ s.token
    → (step s e).stored_token ≡ (step s e).token
unfolding step receive end_session sign_out logged_in entered not_entered
step-stored s e h = ground (arith, h)

-- After any events, from a state in which the token that is stored is the token that the page has,
-- that is so again: a reload of the page finds no other token.
pub after-stored :
    (s : Session) (es : List Event)
    → s.stored_token ≡ s.token
    → (after s es).stored_token ≡ (after s es).token
unfolding after
after-stored s [] h = h
after-stored s (e ∷ es) h = after-stored (step s e) es (step-stored s e h)
