-- ===== src/Portal/Picker.antt =====
-- assets/portal/portal.js, lines 1024-1097: the dialog that a folder is picked in.
pub mod Safe
pub mod Shown
use vault_box.Base.{
  ℕ, Bool, true, false, not, Option, none, some, if◌then◌else◌, List, [], ◌∷◌, keep, Text, codes,
  same,
}
use vault_box.Mock.Serve.{Property}
use vault_box.Portal.Words.{join_path, parent_path, describe_error}
use vault_box.Portal.Folder.{Entry, sort_by}
use vault_box.Portal.Actions.{Answer, came, refused}
use vault_box.Portal.Batches.{Choice, Conflict, skip, keep_both, replace}

-- What the list holds: "Loading…", the folders that can be gone to, none of them, or a message.
pub data Listed : Type 0 where
  loading no_folders : Listed
  folders : List Text → Listed
  problem : Property Text → Listed

pub record Picker : Type 0 where
  pub location : Text
  -- The text of the label over the list, and whether the button to go up is disabled.
  pub label : Text
  pub at_top : Bool
  pub listed : Listed
  pub has_note : Bool
  pub conflict : Conflict

-- `refresh` up to its request, which asks for up to 500 entries of the location.
pub refresh : Picker → Picker
refresh p = record p {
  label = p.location;
  at_top = same p.location (codes "/");
  listed = loading;
  has_note = false;
}

unfoldable pub picker : (path : Text) → Picker
unfolding refresh
picker path = refresh (record {
  location = path;
  label = [];
  at_top = false;
  listed = loading;
  has_note = false;
  conflict = skip;
})

pub record Page : Type 0 where
  pub entries : List Entry
  pub has_next : Bool

names_of : List Entry → List Text
names_of [] = []
names_of (e ∷ es) = e.name ∷ names_of es

list_folders : List Entry → Listed
list_folders [] = no_folders
list_folders (e ∷ es) = folders (names_of (e ∷ es))

-- A click on the button to go up, on a folder of the list, on a radio button; an answer, of
-- whichever request.
pub data Event : Type 0 where
  up : Event
  open_folder : (name : Text) → Event
  choose : Conflict → Event
  answered : Answer Page → Event

-- `leb_name` stands for the collator's order.
module _ (leb_name : Text → Text → Bool) where
  pub answer : Answer Page → Picker → Picker
  unfolding names_of list_folders sort_by
  answer (came page) p = record p {
    listed =
        list_folders
          (sort_by (λ a b. leb_name a.name b.name) (keep (λ e. e.is_directory) page.entries));
    has_note = if page.has_next then true else p.has_note;
  }
  answer (refused code retry_after) p = record p {
    listed = problem (describe_error code retry_after);
  }

  unfoldable pub step : Picker → Event → Picker
  unfolding refresh answer parent_path join_path
  step p up = refresh (record p { location = parent_path p.location })
  step p (open_folder name) = refresh (record p { location = join_path p.location name })
  step p (choose c) = record p { conflict = c }
  step p (answered a) = answer a p

  unfoldable pub after : Picker → List Event → Picker
  unfolding step
  after p [] = p
  after p (e ∷ es) = after (step p e) es

-- What the dialog resolves with.
unfoldable pub chosen : (confirmed : Bool) → Picker → Option Choice
chosen confirmed p =
    if confirmed then some (record { path = p.location; conflict = p.conflict }) else none
