-- ===== src/PublicPage/Flow.antt =====
-- assets/portal/public.js, lines 10-12, 67-88, 122-128 and 403-424: what the page shows.
use vault_box.Base.{
  Bool, true, false, not, ◌&&◌, Option, none, some, if◌then◌else◌, same, List, [], ◌∷◌, ◌++◌, Text,
  codes, segments, get_elem?, non_empty,
}
use vault_box.Base.Dict
use vault_box.Base.Dict.{Dict}
use vault_box.Base.Uri.{encode}
use vault_box.Mock.Serve.{Property, own, missing, property}
use vault_box.Mock.Server.{LinkKind, upload, download}

-- The token in the address of the page.
unfoldable pub token_of : (pathname : Text) → Text
unfolding segments
token_of pathname = elim (get_elem? (segments pathname) 1) [ none ↦ [] | some t ↦ t ]

abbrev pub messages : Dict Text
messages =
    (codes "not_found", codes "This link doesn't exist, or it has been removed.")
    ∷ (codes "link_expired", codes "This link has expired.")
    ∷ (codes "link_used_up", codes "This link has been used as many times as it allows.")
    ∷ (codes "password_required", codes "Enter the password to continue.")
    ∷ (codes "invalid_password", codes "That password isn't right.")
    ∷ (codes "too_many_attempts", codes "Too many attempts. Wait a moment and try again.")
    ∷ (codes "busy", codes "The phone is busy. Try again in a moment.")
    ∷ (codes "storage_unavailable", codes "The storage isn't reachable right now.")
    ∷ (codes "invalid_name", codes "That file name can't be used.")
    ∷ (codes "file_too_large", codes "That file is bigger than this link accepts.")
    ∷ (codes "upload_interrupted", codes "The upload was interrupted.")
    ∷ (codes "insufficient_storage", codes "There isn't enough free space on the phone.")
    ∷ (codes "network", codes "Can't reach the phone. Check that it is on and on the same network.")
    ∷ []

abbrev or_generic : Property Text → Property Text
or_generic missing = own (codes "Something went wrong. Please try again.")
or_generic p = p

-- `inherited` where the code is the name of a property that all objects have.
unfoldable pub describe : (code : Text) → (retry_after : Option Text) → Property Text
unfolding property Dict.get
describe code (some (c ∷ wait)) =
    if same code (codes "too_many_attempts")
    then own (codes "Too many attempts. Try again in " ++ (c ∷ wait) ++ codes " seconds.")
    else or_generic (property code messages)
describe code retry_after = or_generic (property code messages)

-- The parameters of an address, each encoded; `none` is the URIError.
pub parameter : (name : Text) → Option Text → Option (List Text)
parameter name none = some []
parameter name (some []) = some []
parameter name (some (c ∷ v)) = elim (encode (c ∷ v)) [
  | none ↦ none
  | some e ↦ some ((name ++ b'=' ∷ e) ∷ [])
]

join_and : List Text → Text
join_and [] = []
join_and (p ∷ []) = p
join_and (p ∷ q ∷ ps) = p ++ b'&' ∷ join_and (q ∷ ps)

abbrev with_query : Text → List Text → Text
with_query url [] = url
with_query url (p ∷ ps) = url ++ b'?' ∷ join_and (p ∷ ps)

-- `contentUrl`, after the link's own part of the address.
unfoldable pub content_url : (path unlock : Option Text) → Option Text
unfolding parameter join_and encode
content_url path unlock = elim (parameter (codes "path") path) [
  | none ↦ none
  | some ps ↦ elim (parameter (codes "unlock") unlock) [
    | none ↦ none
    | some us ↦ some (with_query (codes "/content") (ps ++ us))
  ]
]

pub record Info : Type 0 where
  pub kind : LinkKind
  pub is_directory : Bool
  pub requires_password : Bool
  pub unlocked : Bool

pub data View : Type 0 where
  failed : Property Text → View
  password_form : View
  upload_card : View
  folder : View
  file : View

abbrev is_upload : LinkKind → Bool
is_upload upload = true
is_upload download = false

-- `load`, once the server has described the link.
unfoldable pub view_of : Info → View
view_of i =
    if i.requires_password && not i.unlocked
    then password_form
    else if is_upload i.kind
    then upload_card
    else if i.is_directory
    then folder
    else file

-- The page from its start: without a token nothing is asked.
unfoldable pub started :
    (pathname : Text) → (reply : Option Info) → (code : Text) → (retry_after : Option Text) → View
unfolding token_of describe view_of
started pathname reply code retry_after =
    if not (non_empty (token_of pathname))
    then failed (describe (codes "not_found") none)
    else elim reply [ none ↦ failed (describe code retry_after) | some i ↦ view_of i ]
