-- ===== src/Portal/Tests/Requests.antt =====
-- Runs of the portal's requests at the mock server on small inputs, at which the theorems apply.
use vault_box.Base.{
  ◌≡◌, refl, arith, Bool, true, false, none, some, List, [], ◌∷◌, Text, codes, text_dec, split,
  trim, to_lower, starts_with, last_index_of,
}
use vault_box.Base.Dict
use vault_box.Mock.Tree.{dir, file, parse_path, is_dir}
use vault_box.Mock.Tree.Paths.{IsSafePath, parse_path-IsSafePath}
use vault_box.Mock.Server.{Server, Request, unset, object, no_fields, text, array, items_of, made}
use vault_box.Mock.Api.{bearer}
use vault_box.Mock.Actions.Posts.{phone}
use vault_box.Mock.Http.{handle}
use vault_box.Portal.Words.{join_path, parent_path}
use vault_box.Portal.Folder.{Entry}
use vault_box.Portal.Dialog.{prompt_text}
use vault_box.Portal.Actions.{Call, new_folder}
use vault_box.Portal.Batches.{Choice, Conflict, keep_both}
use vault_box.Portal.Actions.Requests.{IsSent}
use vault_box.Portal.Actions.Folders.{handle-new_folder}
use vault_box.Portal.Picker.{picker, up, after, chosen}
use vault_box.Portal.Picker.Safe.{chosen-IsSafePath}

abbrev server : Server
server = record {
  tree = (codes "/a", dir 1) ∷ (codes "/a/f", file (1 ∷ 2 ∷ []) 2) ∷ (codes "/b", dir 3) ∷ [];
  sessions = (codes "t", 0) ∷ [];
  tickets = [];
  unlocks = [];
  links = [];
}

abbrev request : Call → Request
request c = record {
  method = codes "POST";
  pathname = c.url;
  authorization = some (codes "Bearer t");
  range = [];
  path = none;
  limit = unset;
  cursor = none;
  overwrite = none;
  inline = none;
  unlock = none;
  name = none;
  body = object c.body;
  bytes = [];
  now = 5;
  token = codes "new";
  uuid = λ i. codes "id";
}

request-IsSent : (c : Call) → IsSent server c (request c)
unfolding bearer trim to_lower starts_with Dict.get text_dec
request-IsSent c = record {
  is_for = refl;
  post = record { is_post = refl; has_session = refl; has_fields = refl };
}

a-IsSafePath : IsSafePath (codes "/a")
unfolding parse_path text_dec split
a-IsSafePath = parse_path-IsSafePath (some (codes "/a")) refl

abbrev chosen_entries : List Entry
chosen_entries = record { name = codes "f"; is_directory = false; size = some 2 } ∷ []

abbrev delete_call : Call
delete_call = record {
  url = phone "delete";
  body = record no_fields { paths = array (items_of (codes "/a/f" ∷ [])) };
}

abbrev choice : Choice
choice = record { path = codes "/b"; conflict = keep_both }

abbrev move_call : Call
move_call = record {
  url = phone "move";
  body = record no_fields {
    sources = array (items_of (codes "/a/f" ∷ []));
    destination = text (codes "/b");
    conflict = text (codes "keepBoth");
  };
}

abbrev folder_call : Call
folder_call = record {
  url = phone "mkdir";
  body = record no_fields { path = text (codes "/a/new") };
}

handle-new_folder_example : handle server (request folder_call) ≡ (
  record server { tree = Dict.set (codes "/a/new") (dir 5) server.tree },
  made (codes "/a/new"),
)
unfolding new_folder prompt_text trim join_path text_dec Dict.get is_dir
handle-new_folder_example =
    handle-new_folder server (request folder_call) (codes "/a") (codes " new ") {name = codes "new"}
      {c = folder_call} a-IsSafePath refl refl (λ e. ground arith) (λ e. cc) refl refl
      (request-IsSent folder_call)

abbrev any_order : Text → Text → Bool
any_order a b = true

chosen-IsSafePath_example : IsSafePath (codes "/")
unfolding picker after chosen parent_path last_index_of
chosen-IsSafePath_example =
    chosen-IsSafePath any_order (codes "/a") (up ∷ [])
      {c = record { path = codes "/"; conflict = Conflict.skip }} a-IsSafePath (tt, tt) refl
