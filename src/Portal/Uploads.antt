-- ===== src/Portal/Uploads.antt =====
-- assets/portal/portal.js, lines 1101-1121, 1179-1182 and 1200-1287: the queue of uploads and its pump.
pub mod Progress
pub mod Settled
pub mod Numbers
pub mod Served
pub mod Order
pub mod Shown
pub mod Overwrite
use vault_box.Base.{
  ℕ, suc, ◌+◌, ◌*◌, ◌/◌, min, ltb, leb, ◌==◌, Bool, true, false, not, ◌&&◌, ◌||◌, Option, none,
  some, if◌then◌else◌, List, [], ◌∷◌, ◌++◌, Text, codes, same, any, length,
}
use vault_box.Mock.Serve.{Property, own, inherited, missing}
use vault_box.Portal.Words.{describe_error}

pub data Status : Type 0 where
  waiting uploading done skipped : Status
  failed : (message : Property Text) → Status

pub record File : Type 0 where
  pub name : Text
  pub size : ℕ

pub record Item : Type 0 where
  pub id : ℕ
  pub source : File
  pub root_id : Text
  pub dir : Text
  pub status : Status
  pub loaded : ℕ

pub data Choice : Type 0 where
  skip replace : Choice

-- What the pump waits for: the reply to a request, with or without `overwrite`, or the answer to
-- the question whether to replace. `resting` is where `running` is false.
pub data Phase : Type 0 where
  resting : Phase
  sending : (id : ℕ) (overwrite : Bool) → Phase
  asking : (id : ℕ) → Phase

pub record Uploads : Type 0 where
  pub items : List Item
  pub phase : Phase
  pub policy : Option Choice
  pub next_id : ℕ
  pub any_done : Bool
  -- Whether there is a token and a shell, which come and go together but while signing in.
  pub signed_in : Bool
  -- How often the pump has had the folder loaded again.
  pub reloads : ℕ

pub data Event : Type 0 where
  queued : (writable : Bool) (root_id dir : Text) (files : List File) → Event
  progress : (loaded : ℕ) → Event
  answered : (status : ℕ) (code : Text) → Event
  chosen : (picked : Choice) (for_all : Bool) → Event
  cleared : Event
  session_ended : Event
  session_started : Event

abbrev pub is_waiting : Item → Bool
is_waiting i = elim i.status [ waiting ↦ true | _ ↦ false ]

-- The item of an id gets another status, the others are as before.
unfoldable pub mark : ℕ → Status → List Item → List Item
mark id status [] = []
mark id status (i ∷ is) =
    if i.id == id then record i { status = status } ∷ mark id status is else i ∷ mark id status is

unfoldable pub set_loaded : ℕ → ℕ → List Item → List Item
set_loaded id loaded [] = []
set_loaded id loaded (i ∷ is) =
    if i.id == id
    then record i { loaded = loaded } ∷ set_loaded id loaded is
    else i ∷ set_loaded id loaded is

-- The first item that waits, and the items with it marked as uploading.
unfoldable pub start_first : List Item → Option (ℕ × List Item)
start_first [] = none
start_first (i ∷ is) =
    let rest = start_first is in
    if is_waiting i
    then some (i.id, record i { status = uploading } ∷ is)
    else elim rest [ none ↦ none | some (id, js) ↦ some (id, i ∷ js) ]

rest_now : Uploads → Uploads
rest_now u = record u {
  phase = resting;
  reloads = if u.any_done && u.signed_in then suc u.reloads else u.reloads;
}

begin : Uploads → Option (ℕ × List Item) → Uploads
begin u none = rest_now u
begin u (some (id, items)) = record u { items = items; phase = sending id false }

-- `next`
unfoldable pub next : Uploads → Uploads
unfolding begin rest_now start_first
next u = if u.signed_in then begin u (start_first u.items) else rest_now u

-- An item is over: its status is set, and the pump goes on.
pub settle : ℕ → Status → Uploads → Uploads
settle id status u = next (record u {
  items = mark id status u.items;
  any_done = elim status [ done ↦ true | _ ↦ u.any_done ];
})

pub choose : ℕ → Choice → Uploads → Uploads
choose id skip u = settle id skipped u
choose id replace u = record u { items = set_loaded id 0 u.items; phase = sending id true }

decide : ℕ → Option Choice → Uploads → Uploads
decide id none u = record u { phase = asking id }
decide id (some c) u = choose id c u

-- The reply to the last request for an item.
pub finish : ℕ → ℕ → Text → Uploads → Uploads
finish id status code u =
    if leb 200 status && ltb status 300
    then settle id done u
    else if status == 401
    then settle id (failed (own (codes "Signed out"))) (record u { signed_in = false })
    else settle id (failed (describe_error code none)) u

pub on_answer : ℕ → Bool → ℕ → Text → Uploads → Uploads
on_answer id overwrite status code u =
    if not overwrite && status == 409 && same code (codes "already_exists")
    then decide id u.policy u
    else finish id status code u

pub new_items : ℕ → Text → Text → List File → List Item
new_items id root_id dir [] = []
new_items id root_id dir (f ∷ fs) =
    record { id = id; source = f; root_id = root_id; dir = dir; status = waiting; loaded = 0 }
    ∷ new_items (suc id) root_id dir fs

-- `pump`: nothing where it runs; else it starts with no policy.
pub pump : Uploads → Uploads
pump u = elim u.phase [ resting ↦ next (record u { policy = none; any_done = false }) | _ ↦ u ]

pub queue_uploads : Text → Text → List File → Uploads → Uploads
queue_uploads root_id dir [] u = u
queue_uploads root_id dir (f ∷ fs) u = pump (record u {
  items = u.items ++ new_items u.next_id root_id dir (f ∷ fs);
  next_id = u.next_id + length (f ∷ fs);
})

abbrev pub is_active : Item → Bool
is_active i = elim i.status [ waiting ↦ true | uploading ↦ true | _ ↦ false ]

pub answer_in : Phase → ℕ → Text → Uploads → Uploads
answer_in (sending id overwrite) status code u = on_answer id overwrite status code u
answer_in phase status code u = u

pub choice_in : Phase → Choice → Bool → Uploads → Uploads
choice_in (asking id) picked for_all u =
    choose id picked (record u { policy = if for_all then some picked else u.policy })
choice_in phase picked for_all u = u

pub progress_in : Phase → ℕ → Uploads → Uploads
progress_in (sending id overwrite) loaded u = record u { items = set_loaded id loaded u.items }
progress_in phase loaded u = u

-- The button that clears the list is there only while no item is active.
unfoldable pub step : Uploads → Event → Uploads
unfolding queue_uploads new_items pump answer_in on_answer decide finish choice_in choose settle
    progress_in next mark set_loaded
step u (queued writable root_id dir files) =
    if writable then queue_uploads root_id dir files u else u
step u (progress loaded) = progress_in u.phase loaded u
step u (answered status code) = answer_in u.phase status code u
step u (chosen picked for_all) = choice_in u.phase picked for_all u
step u cleared = if any is_active u.items then u else record u { items = [] }
step u session_ended = record u { signed_in = false }
step u session_started = record u { signed_in = true }

-- `paintUpload`: the width of the bar in percent, and the label.
unfoldable pub percent : Item → ℕ
percent i =
    if ltb 0 i.source.size
    then min 100 ((2 * 100 * i.loaded + i.source.size) / (2 * i.source.size))
    else elim i.status [ done ↦ 100 | _ ↦ 0 ]

unfoldable pub bar_width : Item → ℕ
unfolding percent
bar_width i = elim i.status [ done ↦ 100 | _ ↦ percent i ]
