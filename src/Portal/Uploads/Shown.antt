-- ===== src/Portal/Uploads/Shown.antt =====
-- assets/portal/portal.js, lines 1146-1211: the list of the uploads, and the request of one.
use vault_box.Base.{
  ℕ, leb, Bool, true, Option, none, some, if◌then◌else◌, List, [], ◌∷◌, ◌++◌, any, Text, codes,
  decimal,
}
use vault_box.Base.Uri.{encode}
use vault_box.Mock.Serve.{Property, own}
use vault_box.Dom.{Child, Children, nothing, none_more, ◌▸◌, h, attr, given, leaf, el, all_of}
use vault_box.Portal.Words.{join_path}
use vault_box.Portal.Elements.{button, plain}
use vault_box.Portal.Uploads.{
  Item, Status, waiting, uploading, done, skipped, failed, is_active, percent, bar_width,
}

-- A click on the button that clears the list.
pub data Msg : Type 0 where
  clears : Msg

-- `item.message || "Failed"`; `native` is how the browser writes a message that is a function.
abbrev message_text : (native : Text) → Property Text → Text
message_text native (own []) = codes "Failed"
message_text native (own (c ∷ t)) = c ∷ t
message_text native p = native

-- `paintUpload`: the text of the label, and its class.
unfoldable pub label_text : (native : Text) → Item → Text
unfolding percent
label_text native i = elim i.status [
  | waiting ↦ codes "Waiting"
  | uploading ↦ decimal (percent i) ++ codes "%"
  | done ↦ codes "Done"
  | skipped ↦ codes "Skipped"
  | failed m ↦ message_text native m
]

pub label_class : Status → Text
label_class done = codes "s good"
label_class (failed m) = codes "s bad"
label_class s = codes "s"

-- A row of the list, painted.
unfoldable pub row : (native : Text) → Item → Child Msg
unfolding h label_text label_class bar_width
row native i = el (codes "li") [] (
    el (codes "div") (attr "class" "row" ∷ []) (
      leaf "span" (attr "class" "n" ∷ given "text" i.source.name ∷ given "title" i.source.name ∷ [])
      ▸ leaf "span" (given "class" (label_class i.status) ∷ given "text" (label_text native i) ∷ [])
      ▸ none_more)
    ▸ el (codes "div") (attr "class" "bar" ∷ []) (
        leaf "span" (given "style" (codes "width: " ++ decimal (bar_width i) ++ codes "%;") ∷ [])
        ▸ none_more)
    ▸ none_more)

-- `renderUploads`; with no items the box is hidden.
unfoldable pub render_uploads : (native : Text) → List Item → Children Msg
unfolding h row button
render_uploads native [] = none_more
render_uploads native (i ∷ is) =
    let active = any is_active (i ∷ is) in
    el (codes "header") [] (
      leaf "span" (
        attr "class" "spacer"
        ∷ given "text" (if active then codes "Uploading…" else codes "Uploads")
        ∷ [])
      ▸ (if active
          then nothing
          else button (codes "Clear") (some (codes "close"))
              (record plain { small = true; kind = some (codes "quiet") }) (some clears))
      ▸ none_more)
    ▸ el (codes "ul") [] (all_of (row native) (i ∷ is))
    ▸ none_more

-- `sendFile`: the address; a lone surrogate is an exception.
unfoldable pub upload_url : Item → (overwrite : Bool) → Option Text
unfolding encode join_path
upload_url i overwrite = elim (encode i.root_id) [
  | none ↦ none
  | some root ↦ elim (encode (join_path i.dir i.source.name)) [
    | none ↦ none
    | some path ↦ some (
        codes "/api/v1/roots/"
        ++ root
        ++ codes "/content?path="
        ++ path
        ++ (if overwrite then codes "&overwrite=1" else []))
  ]
]

-- What the request ends with: an answer with its status and, where its body can be read, the `error`
-- in it; or no answer.
pub data Ended : Type 0 where
  loaded : (status : ℕ) (error : Option (Option Text)) → Ended
  broken : Ended

unfoldable pub outcome : Ended → ℕ × Option Text
outcome (loaded status error) = (
  status,
  if leb 400 status
      then elim error as (λ x. Option Text) [ none ↦ some (codes "error") | some e ↦ e ]
      else none,
)
outcome broken = (0, some (codes "network"))
