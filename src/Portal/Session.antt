-- ===== src/Portal/Session.antt =====
-- assets/portal/portal.js, lines 214-227, 244-322, 345-360, 398-421 and 1289-1295: the session.
pub mod Resume
use vault_box.Base.{
  ℕ, ◌==◌, ltb, leb, Bool, true, false, not, ◌&&◌, ◌||◌, Option, none, some, if◌then◌else◌, List,
  [], ◌∷◌, Text, codes, same, length, trim, non_empty,
}
use vault_box.Mock.Serve.{Property, own}
use vault_box.Portal.Words.{describe_error}
use vault_box.Portal.Route.{Root}

-- The page that is shown, with the note on the login form.
pub data View : Type 0 where
  login : (note : Option (Property Text)) → View
  app : View
  blank : View

pub record Session : Type 0 where
  pub token : Option Text
  pub user : Option Text
  pub roots : List Root
  pub shell : Bool
  -- What `sessionStorage` holds: the token and the address to come back to.
  pub stored_token : Option Text
  pub resume : Option Text
  pub hash : Text
  pub view : View

abbrev pub is_some {ℓ} : {A : Type ℓ} → Option A → Bool
is_some none = false
is_some (some a) = true

-- `endSession`
unfoldable pub end_session : Option Text → Session → Session
end_session note s = if not (is_some s.token) && not s.shell then s else record s {
  resume = if ltb 1 (length s.hash) then some s.hash else none;
  token = none;
  user = none;
  stored_token = none;
  shell = false;
  view = login (elim note [ none ↦ none | some n ↦ some (own n) ]);
}

-- What `fetch` gives: a status, and the `error` of the body where it is a text.
pub data Response : Type 0 where
  unreachable : Response
  reply : (status : ℕ) (error : Option Text) (retry_after : Option Text) → Response

pub data Outcome : Type 0 where
  success : Outcome
  api_error : (status : ℕ) (code : Text) (retry_after : Option Text) → Outcome

abbrev ended : Text
ended = codes "Your session ended. Sign in again to continue."

abbrev pub or_error : Option Text → Text
or_error none = codes "error"
or_error (some e) = e

-- `request`, from its response on; `authed` is false for a login only.
unfoldable pub receive : (authed : Bool) → Response → Session → Session × Outcome
unfolding end_session
receive authed unreachable s = (s, api_error 0 (codes "network") none)
receive authed (reply status error retry_after) s =
    if status == 401 && authed && is_some s.token
    then (end_session (some ended) s, api_error 401 (codes "unauthorized") none)
    else if leb 200 status && leb status 299
    then (s, success)
    else (s, api_error status (or_error error) retry_after)

-- `signOut`: its request is answered, or not, and then everything is forgotten.
unfoldable pub sign_out : Response → Session → Session
unfolding receive
sign_out r s = record (receive true r s).0 {
  token = none;
  user = none;
  stored_token = none;
  resume = none;
  shell = false;
  hash = [];
  view = login none;
}

-- Whether the login form sends what was typed.
unfoldable pub can_submit : (username password : Text) → Bool
can_submit username password = non_empty (trim username) && non_empty password

-- A login that succeeded, before the page is entered.
unfoldable pub logged_in : (token user : Text) → Session → Session
logged_in token user s = record s {
  token = some token;
  user = some user;
  stored_token = some token;
}

-- `enterApp`, once the user and the roots are there.
unfoldable pub entered : (user : Text) → List Root → Session → Session
entered user roots s = record s {
  user = some user;
  roots = roots;
  shell = true;
  resume = elim s.resume [ none ↦ none | some [] ↦ some [] | some (c ∷ h) ↦ none ];
  hash = elim s.resume [ none ↦ s.hash | some [] ↦ s.hash | some h ↦ h ];
  view = app;
}

-- `enterApp`, where one of its requests failed.
unfoldable pub not_entered : (code : Text) → (retry_after : Option Text) → Session → Session
unfolding describe_error
not_entered code retry_after s = if same code (codes "unauthorized") then s else record s {
  token = none;
  stored_token = none;
  view = login (some (describe_error code retry_after));
}

pub data Event : Type 0 where
  answered : (authed : Bool) → Response → Event
  signed_out : Response → Event
  signed_in : (token user : Text) → Event
  app_loaded : (user : Text) → List Root → Event
  app_failed : (code : Text) → (retry_after : Option Text) → Event
  moved : (hash : Text) → Event

unfoldable pub step : Session → Event → Session
unfolding receive sign_out logged_in entered not_entered
step s (answered authed r) = (receive authed r s).0
step s (signed_out r) = sign_out r s
step s (signed_in token user) = logged_in token user s
step s (app_loaded user roots) = entered user roots s
step s (app_failed code retry_after) = not_entered code retry_after s
step s (moved hash) = record s { hash = hash }

-- A page that has just been loaded, with what `sessionStorage` holds.
unfoldable pub booted : (stored_token resume : Option Text) → (hash : Text) → Session
booted stored_token resume hash = record {
  token = stored_token;
  user = none;
  roots = [];
  shell = false;
  stored_token = stored_token;
  resume = resume;
  hash = hash;
  view = if is_some stored_token then blank else login none;
}
