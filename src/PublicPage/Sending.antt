-- ===== src/PublicPage/Sending.antt =====
-- assets/portal/public.js, lines 302-399: the files that are sent to an upload link.
pub mod Order
pub mod Served
pub mod Shown
use vault_box.Base.{
  ◌≡◌, refl, sym, ap, ◌∙◌, arith, ℕ, leb, ltb, ◌&&◌, Bool, true, false, Option, none, some,
  if◌then◌else◌, List, [], ◌∷◌, ◌++◌, Text, append_assoc, map, Option-cases, inl, inr, ◌||◌,
}
use vault_box.Mock.Serve.{Property}
use vault_box.PublicPage.Flow.{describe}

pub data Status : Type 0 where
  waiting under_way sent : Status
  failed : Property Text → Status

-- `started` is false only where the status is `waiting`.
pub record Item : Type 0 where
  pub name : Text
  pub started : Bool
  pub status : Status

pub record Queue : Type 0 where
  pub items : List Item
  pub sending : Bool
  -- The names for which a request was made, in order.
  pub requests : List Text

pub data Event : Type 0 where
  queued : (name : Text) → Event
  ended : Status → Event

-- The first item that is not started, and the items with it started.
unfoldable pub start_next : List Item → Option (Text × List Item)
start_next [] = none
start_next (i ∷ is) =
    let rest = start_next is in
    if i.started
    then elim rest [ none ↦ none | some (n, js) ↦ some (n, i ∷ js) ]
    else some (i.name, record i { started = true; status = under_way } ∷ is)

begin : Option (Text × List Item) → Queue → Queue
begin none q = q
begin (some (n, items)) q = record {
  items = items;
  sending = true;
  requests = q.requests ++ n ∷ [];
}

unfoldable pub pump : Queue → Queue
unfolding begin start_next
pump q = if q.sending then q else begin (start_next q.items) q

unfoldable pub queue : (name : Text) → Queue → Queue
unfolding pump
queue name q =
    pump (record q {
      items = q.items ++ record { name = name; started = false; status = waiting } ∷ [];
    })

-- How the reply to a request is shown.
unfoldable pub status_of : (status : ℕ) → (code : Text) → Status
unfolding describe
status_of status code =
    if leb 200 status && ltb status 300 then sent else failed (describe code none)

-- The item that is under way gets its status.
unfoldable pub set_status : Status → List Item → List Item
set_status s [] = []
set_status s (i ∷ is) = elim i.status [
  | under_way ↦ record i { status = s } ∷ set_status s is
  | _ ↦ i ∷ set_status s is
]

-- A request ends, whatever with, and the next one is made.
unfoldable pub finish : Status → Queue → Queue
unfolding pump set_status
finish s q =
    if q.sending then pump (record q { items = set_status s q.items; sending = false }) else q

unfoldable pub step : Queue → Event → Queue
unfolding queue finish
step q (queued name) = queue name q
step q (ended s) = finish s q
