-- ===== src/Portal/Actions.antt =====
-- assets/portal/portal.js, lines 206-210, 292-294 and 891-971: what the tools do with one entry.
pub mod Requests
pub mod Folders
use vault_box.Base.{
  ℕ, zero, suc, ◌==◌, ltb, Bool, true, false, not, ◌&&◌, Option, none, some, if◌then◌else◌, List,
  [], ◌∷◌, ◌++◌, map, length, Text, codes, same, starts_with, non_empty, decimal, String,
}
use vault_box.Base.Uri.{encode}
use vault_box.Mock.Serve.{Property, own, inherited, missing}
use vault_box.Mock.Server.{
  Json, absent, text, array, items_of, Fields, no_fields, Status, completed, skipped, failed,
  Result,
}
use vault_box.Dom.{Node, none_more, h, attr, given, flag}
use vault_box.Portal.Words.{Kind, image, video, audio, plain_text, other, join_path, describe_error}
use vault_box.Portal.Folder.{Entry}
use vault_box.Portal.Dialog.{Action}

-- What an answered request gives to the code that waits for it.
pub data Answer {ℓ} (A : Type ℓ) : Type ℓ where
  came : A → Answer A
  refused : (code : Text) (retry_after : Option Text) → Answer A

-- What the code does with an answer: a toast, a new load of the folder, a click on a link.
pub data Effect : Type 0 where
  toast : Property Text → (is_error : Bool) → Effect
  reload : Effect
  follow : (url name : Text) → Effect

-- A POST with its address and the fields of its body.
pub record Call : Type 0 where
  pub url : Text
  pub body : Fields

-- `rootUrl`; a lone surrogate in the id is an exception.
unfoldable pub root_url : (root_id action : Text) → Option Text
unfolding encode
root_url root_id action = elim (encode root_id) [
  | none ↦ none
  | some id ↦ some (codes "/api/v1/roots/" ++ id ++ b'/' ∷ action)
]

unfoldable pub call : Option Text → Fields → Option Call
call none f = none
call (some url) f = some (record { url = url; body = f })

-- `{ class: "toast" + (isError ? " error" : "") }`, and how long it stays.
pub toast_class : Bool → Text
toast_class is_error = codes "toast" ++ (if is_error then codes " error" else [])

pub toast_time : Bool → ℕ
toast_time is_error = if is_error then 8000 else 5000

unfoldable pub tell : {A : Type 0} → Answer A → (A → List Effect) → List Effect
tell (came a) f = f a
tell (refused code retry_after) f = toast (describe_error code retry_after) true ∷ []

-- `withTicket`: the request, and what is made of the `url` in its answer.
unfoldable pub ticket_call : (root_id path : Text) → Entry → Option Call
unfolding call root_url join_path
ticket_call root_id path e =
    call (root_url root_id (codes "ticket"))
      (record no_fields { path = text (join_path path e.name) })

unfoldable pub ticket_url : Answer Json → Answer Text
ticket_url (came (text url)) =
    if starts_with url (codes "/d/") then came url else refused (codes "error") none
ticket_url (came v) = refused (codes "error") none
ticket_url (refused code retry_after) = refused code retry_after

unfoldable pub download_file : Entry → Answer Json → List Effect
unfolding ticket_url tell describe_error
download_file e answer = tell (ticket_url answer) (λ url. follow url e.name ∷ [])

-- The element of a preview, its text when that has come or has not, and the dialog's buttons.
unfoldable pub media {ℓ} : {M : Type ℓ} → Kind → (url name : Text) → Node M
unfolding h
media image url name =
    h (codes "img") (given "src" (url ++ codes "?inline=1") ∷ given "alt" name ∷ []) none_more
media video url name =
    h (codes "video")
      (given "src" (url ++ codes "?inline=1")
        ∷ flag "controls" true
        ∷ attr "preload" "metadata"
        ∷ [])
      none_more
media audio url name =
    h (codes "audio")
      (given "src" (url ++ codes "?inline=1")
        ∷ flag "controls" true
        ∷ attr "preload" "metadata"
        ∷ [])
      none_more
media k url name = h (codes "pre") (attr "text" "Loading…" ∷ []) none_more

pub media_text : Option Text → Text
media_text none = codes "Couldn't load this file."
media_text (some t) = t

abbrev pub preview_actions : List (Action (Option Text))
preview_actions =
    record { value = none; submit = false }
    ∷ record { value = some (codes "download"); submit = true }
    ∷ []

-- Whether the file is downloaded after its preview.
pub wants_download : Option Text → Bool
wants_download none = false
wants_download (some v) = same v (codes "download")

-- `newFolder`: nothing is sent for null or an empty text.
unfoldable pub new_folder : (root_id path : Text) → (typed : Option Text) → Option Call
unfolding call root_url join_path
new_folder root_id path none = none
new_folder root_id path (some name) =
    if not (non_empty name)
    then none
    else call (root_url root_id (codes "mkdir"))
        (record no_fields { path = text (join_path path name) })

pub folder_made : {A : Type 0} → (name : Text) → Answer A → List Effect
folder_made name answer =
    tell answer (λ a. toast (own (codes "Created “" ++ name ++ codes "”.")) false ∷ reload ∷ [])

-- `renameEntry`: nor for the name that it has.
unfoldable pub rename_entry : (root_id path : Text) → Entry → (typed : Option Text) → Option Call
unfolding call root_url join_path
rename_entry root_id path e none = none
rename_entry root_id path e (some name) =
    if not (non_empty name)
    then none
    else if same name e.name
    then none
    else call (root_url root_id (codes "rename"))
        (record no_fields { path = text (join_path path e.name); new_name = text name })

pub entry_renamed : {A : Type 0} → Answer A → List Effect
entry_renamed answer = tell answer (λ a. reload ∷ [])
