-- ===== src/PublicPage/View.antt =====
-- assets/portal/public.js, lines 10-13, 17-54, 140-170, 212-221 and 302-342: the elements of the page.
pub mod Listing
use vault_box.Base.{
  ℕ, ◌==◌, ltb, Bool, true, false, not, ◌&&◌, ◌||◌, Option, none, some, if◌then◌else◌, List, [],
  ◌∷◌, ◌++◌, Text, codes, same, one_of, decimal, String,
}
use vault_box.Base.Uri.{encode}
use vault_box.Mock.Serve.{Property, own, inherited, missing}
use vault_box.Dom
use vault_box.Dom.{
  Node, Child, Children, Value, nothing, node, none_more, more, ◌▸◌, attr, given, flag, on, leaf,
  el, only_if,
}
use vault_box.Portal.Words
use vault_box.PublicPage.Flow.{token_of, content_url}
use vault_box.PublicPage.Sending.{Status, waiting, under_way, sent, failed}

-- What a click asks for.
pub data Msg : Type 0 where
  go_to : (path : Text) → Msg
  load_more : Msg
  unlocks : Msg
  chooses_files : Msg
  picks_files : Msg

-- `h` and `formatBytes`, which are the portal's.
unfoldable pub h : Text → List (Text × Value Msg) → Children Msg → Node Msg
unfolding Dom.h
h tag attrs children = Dom.h tag attrs children

unfoldable pub format_bytes : Option ℕ → Text
unfolding Words.format_bytes
format_bytes bytes = Words.format_bytes bytes

-- `base`; a lone surrogate in the token is an exception.
unfoldable pub base : (pathname : Text) → Option Text
unfolding token_of encode
base pathname = elim (encode (token_of pathname)) [
  | none ↦ none
  | some t ↦ some (codes "/api/v1/public/" ++ t)
]

unfoldable pub href : (pathname : Text) → (path unlock : Option Text) → Option Text
unfolding base content_url
href pathname path unlock = elim (base pathname) [
  | none ↦ none
  | some b ↦ elim (content_url path unlock) [ none ↦ none | some u ↦ some (b ++ u) ]
]

pub brand : Child Msg
unfolding h
brand = node (
    h (codes "div") (attr "class" "brand" ∷ []) (
      node (h (codes "span") (attr "class" "brand-mark" ∷ attr "aria-hidden" "true" ∷ []) none_more)
      ▸ node (h (codes "h1") (attr "text" "VaultBox" ∷ []) none_more)
      ▸ none_more))

pub lede : Text → Child Msg
unfolding h
lede t = node (h (codes "p") (attr "class" "lede" ∷ given "text" t ∷ []) none_more)

pub label : (class text : String) → Child Msg
unfolding h
label class text = node (h (codes "span") (attr "class" class ∷ attr "text" text ∷ []) none_more)

unfoldable pub shell : Children Msg → Child Msg
unfolding h brand
shell children = node (
    h (codes "div") (attr "class" "login-wrap" ∷ []) (
      node (h (codes "main") (attr "class" "card" ∷ []) (brand ▸ Child.array children ▸ none_more))
      ▸ none_more))

-- `native` is how the browser writes a message that is a function.
unfoldable pub show_error : (native : Text) → Property Text → Child Msg
unfolding h shell
show_error native e = shell (
    node (
      h (codes "p")
        (attr "class" "notice error"
          ∷ attr "role" "alert"
          ∷ given "text" (elim e [ own t ↦ t | _ ↦ native ])
          ∷ [])
        none_more)
    ▸ none_more)

unfoldable pub insecure_note : (protocol hostname : Text) → Child Msg
unfolding h
insecure_note protocol hostname =
    only_if
      (same protocol (codes "http:")
        && not (one_of hostname (codes "localhost" ∷ codes "127.0.0.1" ∷ codes "[::1]" ∷ [])))
      (node (
        h (codes "p")
          (attr "class" "insecure"
            ∷ attr "text"
                "This connection isn't encrypted, so anyone on this network could see what is sent. Use the https:// address if you can."
            ∷ [])
          none_more))

-- `until` is how the browser writes the time that the link expires at, if it does.
unfoldable pub expiry_note : (until : Option Text) → Child Msg
unfolding lede
expiry_note none = nothing
expiry_note (some t) = lede (codes "Available until " ++ t ++ codes ".")

abbrev or_file : Option Text → Text
or_file none = codes "File"
or_file (some []) = codes "File"
or_file (some (c ∷ t)) = c ∷ t

abbrev or_nothing : Option Text → Text
or_nothing none = []
or_nothing (some t) = t

-- `renderFile`; the parts that do not depend on the file are given.
unfoldable pub render_file :
    (name : Option Text)
    → (size : Option ℕ) → (url : Text) → (expiry insecure : Child Msg) → Child Msg
unfolding h shell lede label format_bytes
render_file name size url expiry insecure = shell (
    lede (codes "Someone shared a file with you.")
    ▸ node (
        h (codes "p") []
          (node (h (codes "strong") (given "text" (or_file name) ∷ []) none_more) ▸ none_more))
    ▸ elim size [ none ↦ nothing | some n ↦ lede (format_bytes (some n)) ]
    ▸ expiry
    ▸ node (
        h (codes "a")
          (attr "class" "btn primary" ∷ given "href" url ∷ given "download" (or_nothing name) ∷ [])
          (label "txt" "Download" ▸ none_more))
    ▸ insecure
    ▸ none_more)

-- The lines of `renderUpload` on what can be sent.
unfoldable pub limit_text : (max_file_bytes : Option ℕ) → Text
unfolding format_bytes
limit_text none = []
limit_text (some n) =
    if n == 0 then [] else codes "Each file can be up to " ++ format_bytes (some n) ++ codes "."

unfoldable pub left_text : (remaining : Option ℕ) → Text
left_text none = []
left_text (some n) =
    decimal n ++ codes " more file" ++ (if n == 1 then [] else codes "s") ++ codes " can be sent."

-- `[limit, left].filter(Boolean).join(" ")`
pub join_texts : Text → Text → Text
join_texts [] u = u
join_texts (c ∷ t) [] = c ∷ t
join_texts (c ∷ t) (d ∷ u) = (c ∷ t) ++ b' ' ∷ d ∷ u

abbrev is_empty : Text → Bool
is_empty [] = true
is_empty (c ∷ t) = false

unfoldable pub render_upload :
    (max_file_bytes remaining : Option ℕ) → (expiry insecure : Child Msg) → Child Msg
unfolding h lede label brand limit_text left_text join_texts
render_upload max_file_bytes remaining expiry insecure =
    let limits = join_texts (limit_text max_file_bytes) (left_text remaining) in
    node (
      h (codes "div") (attr "class" "login-wrap" ∷ []) (
        node (
          h (codes "main") (attr "class" "card" ∷ []) (
            brand
            ▸ lede
                (codes "Send files to the phone's owner. You won't see what else is in the folder.")
            ▸ only_if (not (is_empty limits)) (lede limits)
            ▸ expiry
            ▸ node (
                h (codes "button")
                  (attr "type" "button"
                    ∷ attr "class" "btn primary"
                    ∷ on "onclick" (some chooses_files)
                    ∷ [])
                  (label "txt" "Choose files" ▸ none_more))
            ▸ node (
                h (codes "input")
                  (attr "type" "file"
                    ∷ flag "multiple" true
                    ∷ attr "class" "hidden"
                    ∷ attr "tabindex" "-1"
                    ∷ on "onchange" (some picks_files)
                    ∷ [])
                  none_more)
            ▸ node (h (codes "ul") (attr "class" "uploads-list" ∷ []) none_more)
            ▸ insecure
            ▸ none_more))
        ▸ none_more))
