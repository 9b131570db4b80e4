-- ===== src/Mock/Server.antt =====
-- tool/portal_mock_server.js, lines 26, 47-53 and 117-144: the server's state, requests and replies.
use vault_box.Base.{ℕ, Bool, Option, none, some, List, [], ◌∷◌, ◌++◌, Text}
use vault_box.Base.Dict.{Dict}
use vault_box.Mock.Tree.{Tree, Entry}
use vault_box.Mock.Serve.{Served}

-- A value out of `JSON.parse`, or `absent` for a property that is not there. A number or a Boolean
-- is `other`: whether it is truthy, and what `String` makes of it.
mutual
  pub data Json : Type 0 where
    absent : Json
    null : Json
    text : Text → Json
    other : (truthy : Bool) (shown : Text) → Json
    array : Items → Json

  pub data Items : Type 0 where
    nil : Items
    cons : Json → Items → Items

-- `String(value)` for an element of an array; null and undefined are written as "".
unfoldable mutual
  pub item_text : Json → Text
  item_text absent = []
  item_text null = []
  item_text (text s) = s
  item_text (other t s) = s
  item_text (array vs) = items_text vs

  pub items_text : Items → Text
  items_text nil = []
  items_text (cons v nil) = item_text v
  items_text (cons v (cons w vs)) = item_text v ++ b',' ∷ items_text (cons w vs)

-- The array of some texts.
unfoldable pub items_of : List Text → Items
items_of [] = nil
items_of (t ∷ ts) = cons (text t) (items_of ts)

pub record Fields : Type 0 where
  pub username : Json
  pub password : Json
  pub path : Json
  pub new_name : Json
  pub paths : Json
  pub sources : Json
  pub destination : Json
  pub conflict : Json

-- What reading a request's body gives: `invalid` where it is over the limit or no JSON, `object`
-- with the properties that the server reads, `value` for all else.
pub data Payload : Type 0 where
  invalid : Payload
  value : Json → Payload
  object : Fields → Payload

abbrev pub no_fields : Fields
no_fields = record {
  username = absent;
  password = absent;
  path = absent;
  new_name = absent;
  paths = absent;
  sources = absent;
  destination = absent;
  conflict = absent;
}

-- The argument of `parsePath`, which writes any other value as a text.
unfoldable pub path_arg : Json → Option Text
unfolding item_text items_text
path_arg absent = none
path_arg null = none
path_arg (text s) = some s
path_arg (other t s) = some s
path_arg (array vs) = some (items_text vs)

pub data LinkKind : Type 0 where
  download upload : LinkKind

pub record Link : Type 0 where
  pub kind : LinkKind
  pub path : Text
  pub is_directory : Bool
  pub password : Option Text
  pub max_file_bytes : Option ℕ
  pub remaining : Option ℕ

pub record Ticket : Type 0 where
  pub path : Text
  pub expires : ℕ

pub record Server : Type 0 where
  pub tree : Tree
  -- When each token was given out, in milliseconds.
  pub sessions : Dict ℕ
  pub tickets : Dict Ticket
  pub unlocks : List Text
  pub links : Dict Link

-- What `Number` makes of the `limit` parameter: `unset` without one, `integer` for a natural number.
pub data Limit : Type 0 where
  unset : Limit
  integer : ℕ → Limit
  not_natural : Limit

-- A request as a handler sees it: the parts of the address, the headers and parameters that are
-- read, the body, and what the clock and the random source give while it is handled.
pub record Request : Type 0 where
  pub method : Text
  pub pathname : Text
  pub authorization : Option Text
  pub range : Text
  pub path : Option Text
  pub limit : Limit
  pub cursor : Option Text
  pub overwrite : Option Text
  pub inline : Option Text
  pub unlock : Option Text
  pub name : Option Text
  pub body : Payload
  pub bytes : List ℕ
  pub now : ℕ
  pub token : Text
  pub uuid : ℕ → Text

pub data Status : Type 0 where
  completed skipped failed : Status

pub record Result : Type 0 where
  pub source : Text
  pub status : Status
  pub target : Option Text
  pub message : Option Text

pub record LinkInfo : Type 0 where
  pub kind : LinkKind
  pub is_directory : Bool
  pub requires_password : Bool
  pub unlocked : Bool
  pub name : Option Text
  pub size : Option ℕ
  pub max_file_bytes : Option ℕ
  pub remaining_uses : Option ℕ

-- A reply with its status and the fields of its body that depend on the request.
pub data Reply : Type 0 where
  error : (status : ℕ) (code : Text) → Reply
  not_allowed : (allow : Text) → Reply
  bad_range : (size : ℕ) → Reply
  logged_in : (token : Text) → Reply
  logged_out : Reply
  me : Reply
  roots : Reply
  listing : (path : Text) (entries : List Entry) (next : Option Text) → Reply
  ticket : (url : Text) → Reply
  content : Served → Reply
  stored : (status : ℕ) (path : Text) (size : ℕ) → Reply
  made : (path : Text) → Reply
  renamed : (path : Text) → Reply
  batch : (completed skipped failed : ℕ) (results : List Result) → Reply
  link_info : LinkInfo → Reply
  unlocked : (proof : Option Text) → Reply
  health : Reply
  page : (file : Text) → Reply
  -- An exception: the connection gets a 500 with no body.
  thrown : Reply
