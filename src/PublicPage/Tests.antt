-- ===== src/PublicPage/Tests.antt =====
-- Runs of the public page's code on small inputs, at which the theorems apply.
use vault_box.Base.{some, ◌≡◌, ◌+◌, Bool, true, false, none, List, [], ◌∷◌, Text, codes, segments}
use vault_box.Base.Dict
use vault_box.Mock.Server.{Server, Request, Link, LinkKind, Fields, no_fields, object, unset, text}
use vault_box.Mock.Server
use vault_box.PublicPage.Password.{Form}
use vault_box.PublicPage.Sending.Served.{Served}
use vault_box.Portal.Folder.{Entry, crumbs_from}
use vault_box.Portal.Folder.Order.{count}
use vault_box.PublicPage.Folder.{
  Shared, open_folder, page_came, open_folder_twice, steps, steps-crumbs_from,
}
use vault_box.PublicPage.Sending.{Queue}
use vault_box.PublicPage.Sending.Order.{after}

abbrev nothing_sent : Queue
nothing_sent = record { items = []; sending = false; requests = [] }

steps-crumbs_from_example : steps (codes "/a/b") ≡ crumbs_from [] (segments (codes "/a/b"))
steps-crumbs_from_example = steps-crumbs_from (codes "/a/b")

abbrev top : Shared
top = record { path = codes "/"; entries = []; next = none; loading = false; error = none }

abbrev one : Text → List Entry
one n = record { name = n; is_directory = false; size = none } ∷ []

abbrev any_order : Text → Text → Bool
any_order a b = true

open_folder_twice_example :
    let after = page_came any_order (one (codes "y")) none (
      page_came any_order
        (one (codes "x"))
        none
        (open_folder (codes "/b") (open_folder (codes "/a") top))) in
    (after.path ≡ codes "/b")
    × (count (λ e. true) after.entries
        ≡ count (λ e. true) (one (codes "x")) + count (λ e. true) (one (codes "y")))
open_folder_twice_example =
    open_folder_twice any_order (codes "/a") (codes "/b") (one (codes "x")) (one (codes "y")) none
      none top (λ e. true)

abbrev locked_link : Link
locked_link = record {
  kind = LinkKind.download;
  path = codes "/a";
  is_directory = true;
  password = some (codes "hunter22");
  max_file_bytes = none;
  remaining = none;
}

abbrev server : Server
server = record {
  tree = [];
  sessions = [];
  tickets = [];
  unlocks = [];
  links = (codes "l", locked_link) ∷ [];
}

abbrev body : Fields
body = record no_fields { password = text (codes "hunter22") }

abbrev unlock_request : Request
unlock_request = record {
  method = codes "POST";
  pathname = codes "/api/v1/public/l/unlock";
  authorization = none;
  range = [];
  path = none;
  limit = unset;
  cursor = none;
  overwrite = none;
  inline = none;
  unlock = none;
  name = none;
  body = object body;
  bytes = [];
  now = 5;
  token = codes "proof";
  uuid = λ i. codes "id";
}

abbrev info_request : Request
info_request = record unlock_request {
  method = codes "GET";
  pathname = codes "/api/v1/public/l";
  unlock = some (codes "proof");
}

abbrev typed : Form
typed = record { typed = codes "hunter22"; failure = none; disabled = false; unlock = none }
