-- ===== src/Portal/Tests.antt =====
-- Runs of the portal's code on small inputs, at which the theorems apply.
mod Requests
mod Pages
use vault_box.Base.{
  ◌≡◌, refl, arith, ℕ, Bool, true, false, none, some, List, [], ◌∷◌, ◌<◌, ◌≤◌, ◌*◌, ◌+◌, ◌&&◌, ◌⊎◌,
  Text, codes, join, All, ltb, non_empty, IsFree, trim, split, text_dec,
}
use vault_box.Base.Uri.{encode}
use vault_box.Portal.Words.{join_path, parent_path, scale, path_segments}
use vault_box.Portal.Words.Paths.{parent_path-join_path}
use vault_box.Portal.Words.Units.{scale_bounds}
use vault_box.Portal.Uploads.{
  Uploads, Event, Phase, resting, sending, asking, answered, chosen, cleared, skip, queued, step,
}
use vault_box.Portal.Uploads.Progress.{waiting_count, todo, Awaited, a_reply, a_choice, todo-step}
use vault_box.Portal.Uploads.Settled.{drain, drain-rests, is_resting}
use vault_box.Portal.Uploads.Overwrite.{after, after-IsGentle, IsGentle}
use vault_box.Portal.Route.{Root, build_hash, parse_hash, go_to, opened, can_write}
use vault_box.Portal.Route.Address.{IsName, parse_hash-build_hash, go_to-opened}
use vault_box.Portal.Folder.{Folder, Entry, load, loaded, page, toolbar, crumbs}
use vault_box.Portal.Folder.Loading.{loaded-stale, load_again}
use vault_box.Portal.Folder.Order.{loaded-page, HasDirectoriesFirst, count}
use vault_box.Portal.Folder.Tools.{toolbar_read_only, crumbs_end, last_path, is_write}
use vault_box.Portal.Session.Resume
use vault_box.Portal.Dialog.Closing
use vault_box.Portal.Session
use vault_box.Portal.Session.{Session, reply, logged_in, booted, signed_in}
use vault_box.Portal.Session.Resume.{after-stored}
use vault_box.Portal.Dialog.{Dialog, dismissed, prompt_text}
use vault_box.Portal.Dialog.Closing.{after-resolved}
use vault_box.Portal.Dialog.Names.{parent_path-prompt_text}

-- A server that takes all, and a user who keeps what is there.
abbrev answer_to : Phase → Event
answer_to resting = cleared
answer_to (sending id o) = answered 201 []
answer_to (asking id) = chosen skip false

answer_to-Awaited : (p : Phase) → is_resting p ≡ false → Awaited p (answer_to p)
answer_to-Awaited resting h = cc
answer_to-Awaited (sending id o) h = a_reply
answer_to-Awaited (asking id) h = a_choice

abbrev idle : Uploads
idle = record {
  items = [];
  phase = resting;
  policy = none;
  next_id = 1;
  any_done = false;
  signed_in = true;
  reloads = 0;
}

abbrev two_queued : Uploads
two_queued = step idle (
    queued true (codes "phone") (codes "/")
      (record { name = codes "a"; size = 1 } ∷ record { name = codes "b"; size = 2 } ∷ []))

abbrev world : Uploads → Event
world u = answer_to u.phase

drain-rests_example :
    ((drain 9 world two_queued).phase ≡ resting)
    × (((drain 9 world two_queued).signed_in
          && ltb 0 (waiting_count (drain 9 world two_queued).items))
        ≡ false)
unfolding step waiting_count
drain-rests_example =
    drain-rests world (λ u h. answer_to-Awaited u.phase h) 9 two_queued refl (omega arith)

after-IsGentle_example :
    IsGentle (after two_queued (answered 409 (codes "already_exists") ∷ chosen skip true ∷ []))
unfolding step
after-IsGentle_example =
    after-IsGentle two_queued (answered 409 (codes "already_exists") ∷ chosen skip true ∷ [])
      (refl, (refl, tt)) (refl, refl)

phone_units : All (λ c. c < 65536) (codes "phone")
phone_units = (omega arith, (omega arith, (omega arith, (omega arith, (omega arith, tt)))))

a_b-IsName : All IsName (codes "a b" ∷ [])
a_b-IsName = (
  (
    refl,
    (ground arith, (ground arith, (ground arith, tt))),
    (omega arith, (omega arith, (omega arith, tt))),
  ),
  tt,
)

parse_hash-build_hash_example :
    parse_hash (codes "#/phone/a%20b")
    ≡ some (record { root_id = codes "phone"; path = b'/' ∷ join (codes "a b" ∷ []) })
unfolding build_hash encode path_segments join split text_dec
parse_hash-build_hash_example =
    parse_hash-build_hash (codes "phone") (codes "a b" ∷ []) phone_units a_b-IsName refl

abbrev phone : Root
phone = record {
  id = codes "phone";
  name = codes "Phone";
  writable = false;
  available = true;
  is_default = true;
}

go_to-opened_example :
    opened (record { root_id = codes "phone"; path = b'/' ∷ join (codes "a b" ∷ []) })
    ≡ opened (record { root_id = codes "phone"; path = b'/' ∷ join (codes "a b" ∷ []) })
unfolding go_to encode path_segments join split text_dec
go_to-opened_example =
    go_to-opened (phone ∷ []) (codes "phone") (codes "a b" ∷ []) {hash = codes "#/phone/a%20b"}
      {routed = opened (record { root_id = codes "phone"; path = codes "/a b" })} phone_units
      a_b-IsName refl refl

abbrev shown : Folder
shown = record {
  path = codes "/";
  entries = record { name = codes "z"; is_directory = false; size = some 3 } ∷ [];
  next = some (codes "z");
  loading = true;
  error = none;
  selected = codes "z" ∷ [];
  load_counter = 4;
}

abbrev more : List Entry
more = record { name = codes "d"; is_directory = true; size = none } ∷ []

abbrev any_order : Text → Text → Bool
any_order a b = true

loaded-page_example :
    HasDirectoriesFirst (loaded any_order 4 (page more none) shown).entries
    × (count (λ e. e.is_directory) (loaded any_order 4 (page more none) shown).entries
        ≡ count (λ e. e.is_directory) shown.entries + count (λ e. e.is_directory) more)
loaded-page_example = loaded-page any_order shown more none (λ e. e.is_directory)

toolbar_read_only_example : All (λ t. is_write t ≡ false) (toolbar (some phone) shown)
unfolding can_write
toolbar_read_only_example = toolbar_read_only phone shown refl

abbrev session : Session
session = record (logged_in (codes "t") (codes "admin") (booted none none (codes "#/phone/a"))) {
  shell = true;
}

after-stored_example :
    (Resume.after session (Session.answered true (reply 401 none none) ∷ [])).stored_token
    ≡ (Resume.after session (Session.answered true (reply 401 none none) ∷ [])).token
unfolding logged_in booted
after-stored_example = after-stored session (Session.answered true (reply 401 none none) ∷ []) refl

abbrev resolved : Dialog ℕ
resolved = record { actions = []; resolved = some (some 5) }

parent_path-prompt_text_example :
    (non_empty (codes "new") ≡ true)
    × IsFree b'\\' (codes "new")
    × (parent_path (join_path (codes "/a") (codes "new")) ≡ codes "/a")
unfolding prompt_text trim
parent_path-prompt_text_example =
    parent_path-prompt_text true (codes " new ") (codes "/a") {name = codes "new"} (λ e. cc) refl
