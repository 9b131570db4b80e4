-- ===== src/PublicPage/Password.antt =====
-- assets/portal/public.js, lines 96-120 and 173-208: requests of the page, and the form that asks for
-- a link's password.
pub mod Opens
use vault_box.Base.{
  ℕ, leb, Bool, true, false, not, ◌&&◌, Option, none, some, if◌then◌else◌, List, [], ◌∷◌, ◌++◌,
  Text, codes, non_empty,
}
use vault_box.Base.Dict
use vault_box.Base.Dict.{Dict}
use vault_box.Mock.Serve.{Property}
use vault_box.Mock.Server.{Fields, no_fields, text}
use vault_box.Dom.{Child, node, none_more, ◌▸◌, attr, flag, on}
use vault_box.Portal.Session.{Response, unreachable, reply, or_error}
use vault_box.PublicPage.Flow.{describe}
use vault_box.PublicPage.View.{Msg, unlocks, h, lede, label, shell}

-- The parameters of a request: those of its query that are neither null nor undefined, and the proof
-- that the link was unlocked, if it is not empty.
pub set_query : List (Text × Option Text) → Dict Text → Dict Text
unfolding Dict.set
set_query [] params = params
set_query ((key, none) ∷ query) params = set_query query params
set_query ((key, some v) ∷ query) params = set_query query (Dict.set key v params)

unfoldable pub params : List (Text × Option Text) → (unlock : Option Text) → Dict Text
unfolding set_query Dict.set
params query none = set_query query []
params query (some []) = set_query query []
params query (some (c ∷ u)) = Dict.set (codes "unlock") (c ∷ u) (set_query query [])

-- What a request ends with; `none` is success, and otherwise a code and the time to wait.
unfoldable pub received : Response → Option (Text × Option Text)
received unreachable = some (codes "network", none)
received (reply status error retry_after) =
    if leb 200 status && leb status 299 then none else some (or_error error, retry_after)

pub record Form : Type 0 where
  pub typed : Text
  pub failure : Option (Property Text)
  pub disabled : Bool
  -- `state.unlock`
  pub unlock : Option Text

-- `onsubmit`: nothing for an empty password.
unfoldable pub submit : Form → Form × Option Fields
submit f = if not (non_empty f.typed) then (f, none) else (
  record f { failure = none; disabled = true },
  some (record no_fields { password = text f.typed }),
)

-- The link is unlocked, and `load` is called again.
unfoldable pub unlocked : (proof : Option Text) → Form → Form
unlocked proof f = record f { typed = []; unlock = proof }

unfoldable pub not_unlocked : (code : Text) → (retry_after : Option Text) → Form → Form
unfolding describe
not_unlocked code retry_after f = record f {
  typed = [];
  failure = some (describe code retry_after);
  disabled = false;
}

unfoldable pub ask_password : (insecure : Child Msg) → Child Msg
unfolding h shell
ask_password insecure = shell (
    lede (codes "This link is protected.")
    ▸ node (
        h (codes "form") (flag "novalidate" true ∷ on "onsubmit" (some unlocks) ∷ []) (
          node (
            h (codes "p") (attr "class" "notice error hidden" ∷ attr "role" "alert" ∷ []) none_more)
          ▸ node (
              h (codes "div") (attr "class" "field" ∷ []) (
                node (h (codes "label") (attr "for" "pw" ∷ attr "text" "Password" ∷ []) none_more)
                ▸ node (
                    h (codes "input")
                      (attr "id" "pw"
                        ∷ attr "type" "password"
                        ∷ attr "autocomplete" "off"
                        ∷ flag "required" true
                        ∷ [])
                      none_more)
                ▸ none_more))
          ▸ node (
              h (codes "button") (attr "type" "submit" ∷ attr "class" "btn primary" ∷ [])
                (label "txt" "Continue" ▸ none_more))
          ▸ none_more))
    ▸ insecure
    ▸ none_more)
