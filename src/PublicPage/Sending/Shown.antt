-- ===== src/PublicPage/Sending/Shown.antt =====
-- assets/portal/public.js, lines 344-350 and 366-399: the row of a file, and the request that sends it.
use vault_box.Base.{
  ℕ, ◌*◌, ◌+◌, ◌/◌, ltb, ◌&&◌, Bool, Option, none, some, if◌then◌else◌, [], ◌∷◌, ◌++◌, Text, codes,
  decimal,
}
use vault_box.Base.Uri.{encode}
use vault_box.Mock.Serve.{own}
use vault_box.Dom.{Child, node, none_more, ◌▸◌, attr, given}
use vault_box.PublicPage.View.{Msg, h, base}
use vault_box.PublicPage.Sending.{Status, waiting, under_way, sent, failed}

-- What the row of a file shows: the text and the class of its status, and the width of its bar.
pub record Row : Type 0 where
  pub status : Text
  pub class : Text
  pub bar : Option ℕ

abbrev pub new_row : Row
new_row = record { status = codes "Waiting"; class = codes "s"; bar = none }

pub begun : Row → Row
begun r = record r { status = codes "0%" }

-- `Math.round(loaded / total * 100)`, where the length is computable and not 0.
unfoldable pub progress : (computable : Bool) → (loaded total : ℕ) → Row → Row
progress computable loaded total r =
    if computable && ltb 0 total
    then (let percent = (2 * 100 * loaded + total) / (2 * total) in
        record r { bar = some percent; status = decimal percent ++ codes "%" })
    else r

-- `native` is how the browser writes a message that is a function.
unfoldable pub ended : (native : Text) → Status → Row → Row
ended native waiting r = r
ended native under_way r = r
ended native sent r = record { status = codes "Sent"; class = codes "s good"; bar = some 100 }
ended native (failed m) r = record r {
  status = elim m as (λ x. Text) [ own t ↦ t | _ ↦ native ];
  class = codes "s bad";
}

-- The elements of a row that waits.
unfoldable pub queue_row : (name : Text) → Child Msg
unfolding h
queue_row name = node (
    h (codes "li") [] (
      node (
        h (codes "div") (attr "class" "row" ∷ []) (
          node (
            h (codes "span") (attr "class" "n" ∷ given "text" name ∷ given "title" name ∷ [])
              none_more)
          ▸ node (h (codes "span") (attr "class" "s" ∷ attr "text" "Waiting" ∷ []) none_more)
          ▸ none_more))
      ▸ node (
          h (codes "div") (attr "class" "bar" ∷ [])
            (node (h (codes "span") [] none_more) ▸ none_more))
      ▸ none_more))

-- The address of the request; a lone surrogate is an exception.
unfoldable pub send_url : (pathname name : Text) → (unlock : Option Text) → Option Text
unfolding base encode
send_url pathname name unlock = elim (base pathname) [
  | none ↦ none
  | some b ↦ elim (encode name) [
    | none ↦ none
    | some n ↦ elim unlock [
      | none ↦ some (b ++ codes "/content?name=" ++ n)
      | some [] ↦ some (b ++ codes "/content?name=" ++ n)
      | some (c ∷ u) ↦ elim (encode (c ∷ u)) [
        | none ↦ none
        | some e ↦ some (b ++ codes "/content?name=" ++ n ++ codes "&unlock=" ++ e)
      ]
    ]
  ]
]
