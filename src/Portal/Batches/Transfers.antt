-- ===== src/Portal/Batches/Transfers.antt =====
-- assets/portal/portal.js, lines 973-1022, with tool/portal_mock_server.js, lines 324-373: deleting,
-- moving and copying entries of a folder at the mock server.
use vault_box.Base.{List, Text}
use vault_box.Mock.Server.{text, array, items_of, Server, Fields, no_fields}
use vault_box.Mock.Moves.{Policy}
use vault_box.Portal.Words.Inside.{IsNameIn}
use vault_box.Portal.Folder.{Entry}
use vault_box.Portal.Batches.{Choice, Conflict, skip, keep_both, replace, conflict_text}

-- What an entry of a folder is called, as in a listing of the server.
abbrev pub IsEntryOf : Text → Entry → Type 0
IsEntryOf path e = IsNameIn path e.name

abbrev pub policy_for : Conflict → Policy
policy_for skip = Policy.skip
policy_for keep_both = Policy.keep_both
policy_for replace = Policy.replace

transfer_fields : List Text → Choice → Fields
transfer_fields paths choice = record no_fields {
  sources = array (items_of paths);
  destination = text choice.path;
  conflict = text (conflict_text choice.conflict);
}
