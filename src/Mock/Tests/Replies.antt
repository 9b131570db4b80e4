-- ===== src/Mock/Tests/Replies.antt =====
-- Runs of the mock server's replies and of its reading of a body, at which the theorems apply.
use vault_box.Base.{
  ◌≡◌, refl, some, [], ◌∷◌, codes, text_dec, starts_with, segments, trim, to_lower,
}
use vault_box.Base.Dict
use vault_box.Mock.Api.{bearer}
use vault_box.Mock.Actions.{api}
use vault_box.Mock.Http.{handle}
use vault_box.Mock.Safety.{handle_refused}
use vault_box.Mock.Wire.{read_body, read_body-concat}
use vault_box.Mock.Tests.{server, request}

handle_refused_example :
    (handle server (request (codes "POST") (codes "/api/v1/roots/usb/mkdir"))).0 ≡ server
unfolding handle api segments starts_with bearer trim to_lower Dict.get text_dec
handle_refused_example =
    handle_refused server (request (codes "POST") (codes "/api/v1/roots/usb/mkdir")) refl

read_body-concat_example : read_body (some 3) ((1 ∷ 2 ∷ []) ∷ (3 ∷ []) ∷ []) ≡ some (1 ∷ 2 ∷ 3 ∷ [])
read_body-concat_example = read_body-concat (some 3) ((1 ∷ 2 ∷ []) ∷ (3 ∷ []) ∷ [])
