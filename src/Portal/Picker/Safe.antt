-- ===== src/Portal/Picker/Safe.antt =====
-- assets/portal/portal.js, lines 1024-1097: where a picker can lead.
use vault_box.Base.{◌≡◌, ap, subst, Bool, true, Option, none, some, List, [], ◌∷◌, Text}
use vault_box.Mock.Tree.Paths.{IsSafePath}
use vault_box.Portal.Words.Inside.{IsNameIn, join_path-IsSafePath, parent_path-IsSafePath}
use vault_box.Portal.Actions.{came, refused}
use vault_box.Portal.Batches.{Choice}
use vault_box.Portal.Picker.{
  refresh, answer, Picker, Event, up, open_folder, choose, answered, picker, step, after, chosen,
}

-- An event that goes to no folder but one with a name that an item can have there.
abbrev pub IsSafeStep : Text → Event → Type 0
IsSafeStep location (open_folder name) = IsNameIn location name
IsSafeStep location e = Unit

module _ (leb_name : Text → Text → Bool) where
  -- Every event of a series, at the place that those before it lead to.
  abbrev pub AreSafe : Picker → List Event → Type 0
  AreSafe p [] = Unit
  AreSafe p (e ∷ es) = IsSafeStep p.location e × AreSafe (step leb_name p e) es

  step-IsSafePath :
      (p : Picker) (e : Event)
      → IsSafePath p.location
      → IsSafeStep p.location e
      → IsSafePath (step leb_name p e).location
  unfolding step refresh answer
  step-IsSafePath p up h k = parent_path-IsSafePath h
  step-IsSafePath p (open_folder name) h k = join_path-IsSafePath p.location name h k
  step-IsSafePath p (choose c) h k = h
  step-IsSafePath p (answered (came page)) h k = h
  step-IsSafePath p (answered (refused code retry_after)) h k = h

  after-IsSafePath :
      (p : Picker) (es : List Event)
      → IsSafePath p.location
      → AreSafe p es
      → IsSafePath (after leb_name p es).location
  unfolding after
  after-IsSafePath p [] h k = h
  after-IsSafePath p (e ∷ es) h (q, k) =
      after-IsSafePath (step leb_name p e) es (step-IsSafePath p e h q) k

  -- A picker that starts at a path that the server accepts, and goes up, into folders with names
  -- that an item can have, and gets answers of any kind at any time, gives a path that the server
  -- accepts, whenever it is confirmed.
  pub chosen-IsSafePath :
      (path : Text) (es : List Event) {c : Choice}
      → IsSafePath path
      → AreSafe (picker path) es
      → chosen true (after leb_name (picker path) es) ≡ some c
      → IsSafePath c.path
  unfolding chosen picker refresh
  chosen-IsSafePath path es {c} h k e =
      subst IsSafePath (ap (λ o. path_or o) e) (after-IsSafePath (picker path) es h k)
    where
      path_or : Option Choice → Text
      path_or none = path
      path_or (some d) = d.path
