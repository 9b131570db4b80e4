-- ===== src/Portal/Uploads/Progress.antt =====
-- assets/portal/portal.js, lines 1219-1287: the pump comes to an end.
use vault_box.Base.{
  ◌≡◌, refl, sym, subst, arith, ℕ, suc, ◌+◌, ◌*◌, ◌≤◌, ◌<◌, Bool, true, false, Option, none, some,
  List, [], ◌∷◌, Text, if◌then◌else◌, Option-cases, inl, inr, codes,
}
use vault_box.Portal.Uploads.{
  Item, Status, waiting, done, skipped, failed, Choice, skip, replace, Phase, resting, sending,
  asking, Uploads, Event, answered, chosen, is_waiting, mark, set_loaded, start_first, next, begin,
  rest_now, settle, choose, decide, finish, on_answer, answer_in, choice_in, step, describe_error,
  own,
}

-- How many items wait.
unfoldable pub waiting_count : List Item → ℕ
waiting_count [] = 0
waiting_count (i ∷ is) = if is_waiting i then suc (waiting_count is) else waiting_count is

unfoldable pub is_waiting_status : Status → Bool
is_waiting_status waiting = true
is_waiting_status s = false

waiting_count-mark :
    (id : ℕ) (s : Status) (is : List Item)
    → is_waiting_status s ≡ false
    → waiting_count (mark id s is) ≤ waiting_count is
unfolding waiting_count mark is_waiting_status
waiting_count-mark id s [] h = ground arith
waiting_count-mark id s (i ∷ is) h = ground (arith, waiting_count-mark id s is h)

waiting_count-set_loaded :
    (id n : ℕ) (is : List Item) → waiting_count (set_loaded id n is) ≡ waiting_count is
unfolding waiting_count set_loaded
waiting_count-set_loaded id n [] = refl
waiting_count-set_loaded id n (i ∷ is) = ground (arith, waiting_count-set_loaded id n is)

-- Starting an item takes it out of those that wait.
waiting_count-start_first :
    (is : List Item) {id : ℕ} {js : List Item}
    → start_first is ≡ some (id, js)
    → waiting_count is ≡ suc (waiting_count js)
unfolding waiting_count start_first
waiting_count-start_first [] h = ground (arith, h)
waiting_count-start_first (i ∷ is) h = elim (Option-cases (start_first is)) [
  | inl e ↦ ground (arith, h, e)
  | inr ((k, ks), e) ↦ ground (arith, h, e, waiting_count-start_first is e)
]

pub waiting_count-start_none : (is : List Item) → start_first is ≡ none → waiting_count is ≡ 0
unfolding waiting_count start_first
waiting_count-start_none [] h = refl
waiting_count-start_none (i ∷ is) h = elim (Option-cases (start_first is)) [
  | inl e ↦ ground (arith, h, e, waiting_count-start_none is e)
  | inr ((k, ks), e) ↦ ground (arith, h, e)
]

-- What a phase has still ahead of it.
abbrev pub weight : Phase → ℕ
weight resting = 0
weight (sending id false) = 3
weight (asking id) = 2
weight (sending id true) = 1

-- A bound on the replies and answers that the pump still waits for.
abbrev pub todo : Uploads → ℕ
todo u = 3 * waiting_count u.items + weight u.phase

todo-begin :
    (u : Uploads) (q : Option (ℕ × List Item))
    → start_first u.items ≡ q
    → todo (begin u q) ≤ 3 * waiting_count u.items
unfolding begin rest_now
todo-begin u none h = ground arith
todo-begin u (some (id, js)) h = ground (arith, waiting_count-start_first u.items h)

todo-next : (u : Uploads) → todo (next u) ≤ 3 * waiting_count u.items
unfolding next rest_now
todo-next u = ground (arith, todo-begin u (start_first u.items) refl)

todo-settle :
    (id : ℕ) (s : Status) (u : Uploads)
    → is_waiting_status s ≡ false
    → todo (settle id s u) ≤ 3 * waiting_count u.items
unfolding settle
todo-settle id s u h = ground (
  arith,
  todo-next
      (record u { items = mark id s u.items; any_done = elim s [ done ↦ true | _ ↦ u.any_done ] }),
  waiting_count-mark id s u.items h,
)

todo-choose :
    (id : ℕ) (c : Choice) (u : Uploads) → todo (choose id c u) ≤ 3 * waiting_count u.items + 1
unfolding choose is_waiting_status
todo-choose id skip u = ground (arith, todo-settle id skipped u refl)
todo-choose id replace u = ground (arith, waiting_count-set_loaded id 0 u.items)

todo-finish :
    (id status : ℕ) (code : Text) (u : Uploads)
    → todo (finish id status code u) ≤ 3 * waiting_count u.items
unfolding finish is_waiting_status
todo-finish id status code u = ground (
  arith,
  todo-settle id done u refl,
  todo-settle id (failed (describe_error code none)) u refl,
  todo-settle id (failed (own (codes "Signed out"))) (record u { signed_in = false }) refl,
)

todo-decide :
    (id : ℕ) (q : Option Choice) (u : Uploads)
    → todo (decide id q u) ≤ 3 * waiting_count u.items + 2
unfolding decide
todo-decide id none u = ground arith
todo-decide id (some c) u = ground (arith, todo-choose id c u)

-- An event that the pump waits for: a reply while a request is out, a choice while it asks.
pub data Awaited : Phase → Event → Type 0 where
  a_reply :
      {id : ℕ} {overwrite : Bool} {status : ℕ} {code : Text}
      → Awaited (sending id overwrite) (answered status code)
  a_choice :
      {id : ℕ} {picked : Choice} {for_all : Bool} → Awaited (asking id) (chosen picked for_all)

todo-on_answer :
    (id : ℕ) (overwrite : Bool) (status : ℕ) (code : Text) (u : Uploads)
    → todo (on_answer id overwrite status code u)
      < 3 * waiting_count u.items + weight (sending id overwrite)
unfolding on_answer
todo-on_answer id true status code u = ground (arith, todo-finish id status code u)
todo-on_answer id false status code u =
    ground (arith, todo-finish id status code u, todo-decide id u.policy u)

todo-choice_in :
    (id : ℕ) (c : Choice) (for_all : Bool) (u : Uploads)
    → todo (choice_in (asking id) c for_all u) < 3 * waiting_count u.items + 2
unfolding choice_in
todo-choice_in id c for_all u =
    let v = record u { policy = if for_all then some c else u.policy } in
    ground (arith, todo-choose id c v)

todo-event :
    (u : Uploads) (p : Phase) (e : Event)
    → u.phase ≡ p
    → Awaited p e
    → todo (step u e) < 3 * waiting_count u.items + weight p
unfolding step answer_in
todo-event u _ _ h (a_reply {id = id} {overwrite = o} {status = status} {code = code}) =
    subst
      (λ q. todo (answer_in q status code u) < 3 * waiting_count u.items + weight (sending id o))
      (sym h) (todo-on_answer id o status code u)
todo-event u _ _ h (a_choice {id = id} {picked = picked} {for_all = for_all}) =
    subst (λ q. todo (choice_in q picked for_all u) < 3 * waiting_count u.items + 2) (sym h)
      (todo-choice_in id picked for_all u)

-- Each reply or choice that the pump waits for brings it nearer to its end, whatever it is: the
-- bound on those still to come gets less.
pub todo-step : (u : Uploads) (e : Event) → Awaited u.phase e → todo (step u e) < todo u
todo-step u e a = todo-event u u.phase e refl a
