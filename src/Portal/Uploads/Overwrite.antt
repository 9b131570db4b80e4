-- ===== src/Portal/Uploads/Overwrite.antt =====
-- assets/portal/portal.js, lines 1219-1263: when a file that is there already is replaced.
use vault_box.Base.{
  ◌≡◌, refl, arith, ℕ, Bool, true, false, Option, none, some, List, [], ◌∷◌, Text, All, codes,
}
use vault_box.Portal.Uploads.{
  Item, Status, done, skipped, failed, Choice, skip, replace, Phase, resting, sending, asking,
  Uploads, File, Event, answered, chosen, queued, progress, cleared, session_ended, session_started,
  start_first, next, begin, rest_now, settle, choose, decide, finish, on_answer, answer_in,
  choice_in, progress_in, step, pump, queue_uploads, describe_error, own,
}

abbrev overwrites : Phase → Bool
overwrites (sending id o) = o
overwrites p = false

abbrev replaces : Option Choice → Bool
replaces (some replace) = true
replaces q = false

-- No request to overwrite is out, and nothing is settled that would send one unasked.
abbrev pub IsGentle : Uploads → Type 0
IsGentle u = (overwrites u.phase ≡ false) × (replaces u.policy ≡ false)

begin-IsGentle :
    (u : Uploads) (q : Option (ℕ × List Item)) → replaces u.policy ≡ false → IsGentle (begin u q)
unfolding begin rest_now
begin-IsGentle u none h = (refl, h)
begin-IsGentle u (some (id, js)) h = (refl, h)

next-IsGentle : (u : Uploads) → replaces u.policy ≡ false → IsGentle (next u)
unfolding next rest_now
next-IsGentle u h = ground (arith, begin-IsGentle u (start_first u.items) h)

settle-IsGentle :
    (id : ℕ) (s : Status) (u : Uploads) → replaces u.policy ≡ false → IsGentle (settle id s u)
unfolding settle
settle-IsGentle id s u h = next-IsGentle _ h

finish-IsGentle :
    (id status : ℕ) (code : Text) (u : Uploads)
    → replaces u.policy ≡ false
    → IsGentle (finish id status code u)
unfolding finish
finish-IsGentle id status code u h = ground (
  arith,
  settle-IsGentle id done u h,
  settle-IsGentle id (failed (describe_error code none)) u h,
  settle-IsGentle id (failed (own (codes "Signed out"))) (record u { signed_in = false }) h,
)

decide-IsGentle :
    (id : ℕ) (q : Option Choice) (u : Uploads)
    → u.policy ≡ q
    → replaces q ≡ false
    → IsGentle (decide id q u)
unfolding decide choose
decide-IsGentle id none u e h = (refl, ground (arith, e))
decide-IsGentle id (some skip) u e h = settle-IsGentle id skipped u (ground (arith, e))
decide-IsGentle id (some replace) u e h = ground (arith, h)

answer_in-IsGentle :
    (p : Phase) (status : ℕ) (code : Text) (u : Uploads)
    → IsGentle u
    → IsGentle (answer_in p status code u)
unfolding answer_in on_answer
answer_in-IsGentle resting status code u v = v
answer_in-IsGentle (asking id) status code u v = v
answer_in-IsGentle (sending id o) status code u (v, w) =
    ground (arith, finish-IsGentle id status code u w, decide-IsGentle id u.policy u refl w)

choice_in-IsGentle :
    (p : Phase) (for_all : Bool) (u : Uploads) → IsGentle u → IsGentle (choice_in p skip for_all u)
unfolding choice_in choose
choice_in-IsGentle (asking id) for_all u (v, w) = settle-IsGentle id skipped _ (ground (arith, w))
choice_in-IsGentle resting for_all u v = v
choice_in-IsGentle (sending id o) for_all u v = v

progress_in-IsGentle : (p : Phase) (n : ℕ) (u : Uploads) → IsGentle u → IsGentle (progress_in p n u)
unfolding progress_in
progress_in-IsGentle (sending id o) n u v = v
progress_in-IsGentle (asking id) n u v = v
progress_in-IsGentle resting n u v = v

pump-IsGentle : (u : Uploads) → IsGentle u → IsGentle (pump u)
unfolding pump
pump-IsGentle u v =
    ground (arith, v, next-IsGentle (record u { policy = none; any_done = false }) refl)

queue_uploads-IsGentle :
    (root_id dir : Text) (fs : List File) (u : Uploads)
    → IsGentle u
    → IsGentle (queue_uploads root_id dir fs u)
unfolding queue_uploads
queue_uploads-IsGentle root_id dir [] u v = v
queue_uploads-IsGentle root_id dir (f ∷ fs) u v = pump-IsGentle _ v

-- Choosing "Replace" in the dialog.
abbrev pub is_replace : Event → Bool
is_replace (chosen replace for_all) = true
is_replace e = false

step-IsGentle : (u : Uploads) (e : Event) → is_replace e ≡ false → IsGentle u → IsGentle (step u e)
unfolding step
step-IsGentle u (queued w root_id dir fs) h v =
    ground (arith, v, queue_uploads-IsGentle root_id dir fs u v)
step-IsGentle u (progress n) h v = progress_in-IsGentle u.phase n u v
step-IsGentle u (answered status code) h v = answer_in-IsGentle u.phase status code u v
step-IsGentle u (chosen skip for_all) h v = choice_in-IsGentle u.phase for_all u v
step-IsGentle u (chosen replace for_all) h v = ground (arith, h)
step-IsGentle u cleared h v = ground (arith, v)
step-IsGentle u session_ended h v = v
step-IsGentle u session_started h v = v

abbrev pub after : Uploads → List Event → Uploads
after u [] = u
after u (e ∷ es) = after (step u e) es

-- As long as nobody chooses "Replace", no request of the queue has `overwrite` set, whatever the
-- server replies and whatever else happens, from any state in which none was out or settled.
pub after-IsGentle :
    (u : Uploads) (es : List Event)
    → All (λ e. is_replace e ≡ false) es
    → IsGentle u
    → IsGentle (after u es)
after-IsGentle u [] h v = v
after-IsGentle u (e ∷ es) (h, hs) v = after-IsGentle (step u e) es hs (step-IsGentle u e h v)
