-- ===== src/Portal/Login.antt =====
-- assets/portal/portal.js, lines 326-394: the login form.
use vault_box.Base.{
  Bool, true, false, not, ◌&&◌, Option, none, some, if◌then◌else◌, [], ◌∷◌, Text, codes, same,
  one_of,
}
use vault_box.Mock.Serve.{Property, own}
use vault_box.Mock.Server.{Fields, no_fields, text}
use vault_box.Dom.{Child, nothing, none_more, ◌▸◌, h, attr, given, flag, on, leaf, el, only_if}
use vault_box.Portal.Words.{describe_error}
use vault_box.Portal.Elements.{button, plain}
use vault_box.Portal.Session.{can_submit}

-- The texts in the two fields, the message over them, and whether the button is disabled.
pub record Form : Type 0 where
  pub username : Text
  pub password : Text
  pub failure : Option (Property Text)
  pub disabled : Bool

abbrev pub new_form : Form
new_form = record { username = []; password = []; failure = none; disabled = false }

-- `onsubmit`: the form, and the body of the login that it sends.
unfoldable pub submit : Form → Form × Option Fields
unfolding can_submit
submit f =
    if not (can_submit f.username f.password)
    then (record f { failure = some (own (codes "Enter your username and password.")) }, none)
    else (
      record f { failure = none; disabled = true },
      some (record no_fields { username = text f.username; password = text f.password }),
    )

-- The answer to a login; the form of one that succeeded is left as it is, but for the password.
unfoldable pub after_login : (refusal : Option (Text × Option Text)) → Form → Form
unfolding describe_error
after_login none f = record f { password = [] }
after_login (some (code, retry_after)) f = record f {
  password = [];
  failure = some (describe_error code retry_after);
  disabled = false;
}

-- Whether the note on an open connection is shown.
pub is_insecure : (protocol hostname : Text) → Bool
is_insecure protocol hostname =
    same protocol (codes "http:")
    && not (one_of hostname (codes "localhost" ∷ codes "127.0.0.1" ∷ codes "[::1]" ∷ []))

-- The elements of the form.
pub data Msg : Type 0 where
  submits : Msg

unfoldable pub render_login : (protocol hostname : Text) → (message : Option Text) → Child Msg
unfolding h button is_insecure
render_login protocol hostname message = el (codes "div") (attr "class" "login-wrap" ∷ []) (
    el (codes "main") (attr "class" "card" ∷ []) (
      el (codes "div") (attr "class" "brand" ∷ []) (
        leaf "span" (attr "class" "brand-mark" ∷ attr "aria-hidden" "true" ∷ [])
        ▸ leaf "h1" (attr "text" "VaultBox" ∷ [])
        ▸ none_more)
      ▸ leaf "p"
          (attr "class" "lede" ∷ attr "text" "Sign in to reach the files on this phone." ∷ [])
      ▸ el (codes "form") (flag "novalidate" true ∷ on "onsubmit" (some submits) ∷ []) (
          note message
          ▸ leaf "p" (attr "class" "notice error hidden" ∷ attr "role" "alert" ∷ [])
          ▸ el (codes "div") (attr "class" "field" ∷ []) (
              leaf "label" (attr "for" "username" ∷ attr "text" "Username" ∷ [])
              ▸ leaf "input" (
                  attr "id" "username"
                  ∷ attr "name" "username"
                  ∷ attr "type" "text"
                  ∷ attr "autocomplete" "username"
                  ∷ attr "autocapitalize" "none"
                  ∷ attr "spellcheck" "false"
                  ∷ flag "required" true
                  ∷ [])
              ▸ none_more)
          ▸ el (codes "div") (attr "class" "field" ∷ []) (
              leaf "label" (attr "for" "password" ∷ attr "text" "Password" ∷ [])
              ▸ leaf "input" (
                  attr "id" "password"
                  ∷ attr "name" "password"
                  ∷ attr "type" "password"
                  ∷ attr "autocomplete" "current-password"
                  ∷ flag "required" true
                  ∷ [])
              ▸ none_more)
          ▸ button (codes "Sign in") none
              (record plain { kind = some (codes "primary"); keep_text = true; submit = true }) none
          ▸ none_more)
      ▸ only_if (is_insecure protocol hostname) (
          leaf "p" (
            attr "class" "insecure"
            ∷ attr "text"
                "This connection isn't encrypted, so anyone on this network could read your password and files. Use the https:// address if you can."
            ∷ []))
      ▸ none_more)
    ▸ none_more)
  where
    note : Option Text → Child Msg
    note none = nothing
    note (some []) = nothing
    note (some (c ∷ t)) =
        leaf "p" (attr "class" "notice" ∷ attr "role" "status" ∷ given "text" (c ∷ t) ∷ [])
