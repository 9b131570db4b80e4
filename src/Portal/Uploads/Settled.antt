-- ===== src/Portal/Uploads/Settled.antt =====
-- assets/portal/portal.js, lines 1219-1287: what the pump has done when it rests.
use vault_box.Base.{
  ◌&&◌, ltb, ◌≡◌, refl, sym, arith, ℕ, zero, suc, ◌≤◌, Bool, true, false, Option, none, some, List,
  Text, if◌then◌else◌, codes, subst, Bool-cases, inl, inr,
}
use vault_box.Portal.Uploads.{
  Item, Status, done, skipped, failed, Choice, skip, replace, Phase, resting, Uploads, Event,
  start_first, next, begin, rest_now, settle, choose, decide, finish, on_answer, answer_in,
  choice_in, step, describe_error, own,
}
use vault_box.Portal.Uploads.Progress.{
  waiting_count, waiting_count-start_none, todo, todo-step, Awaited, a_reply, a_choice,
}

-- The pump rests with nothing left to send, unless the session is over.
abbrev pub IsSettled : Uploads → Type 0
IsSettled u = u.phase ≡ resting → u.signed_in ≡ true → waiting_count u.items ≡ 0

begin-IsSettled :
    (u : Uploads) (q : Option (ℕ × List Item)) → start_first u.items ≡ q → IsSettled (begin u q)
unfolding begin rest_now
begin-IsSettled u none h p t = waiting_count-start_none u.items h
begin-IsSettled u (some (id, js)) h p t = ground (arith, p)

next-IsSettled : (u : Uploads) → IsSettled (next u)
unfolding next rest_now
next-IsSettled u p t = ground (arith, begin-IsSettled u (start_first u.items) refl, p, t)

settle-IsSettled : (id : ℕ) (s : Status) (u : Uploads) → IsSettled (settle id s u)
unfolding settle
settle-IsSettled id s u p t = next-IsSettled _ p t

choose-IsSettled : (id : ℕ) (c : Choice) (u : Uploads) → IsSettled (choose id c u)
unfolding choose
choose-IsSettled id skip u p t = settle-IsSettled id skipped u p t
choose-IsSettled id replace u p t = ground (arith, p)

decide-IsSettled : (id : ℕ) (q : Option Choice) (u : Uploads) → IsSettled (decide id q u)
unfolding decide
decide-IsSettled id none u p t = ground (arith, p)
decide-IsSettled id (some c) u p t = choose-IsSettled id c u p t

finish-IsSettled : (id status : ℕ) (code : Text) (u : Uploads) → IsSettled (finish id status code u)
unfolding finish
finish-IsSettled id status code u p t = ground (
  arith,
  settle-IsSettled id done u,
  settle-IsSettled id (failed (describe_error code none)) u,
  settle-IsSettled id (failed (own (codes "Signed out"))) (record u { signed_in = false }),
  p,
  t,
)

on_answer-IsSettled :
    (id : ℕ) (o : Bool) (status : ℕ) (code : Text) (u : Uploads)
    → IsSettled (on_answer id o status code u)
unfolding on_answer
on_answer-IsSettled id o status code u p t =
    ground (arith, decide-IsSettled id u.policy u, finish-IsSettled id status code u, p, t)

event-IsSettled :
    (u : Uploads) (q : Phase) (e : Event) → u.phase ≡ q → Awaited q e → IsSettled (step u e)
unfolding step answer_in choice_in
event-IsSettled u _ _ h (a_reply {id = id} {overwrite = o} {status = status} {code = code}) =
    subst (λ q. IsSettled (answer_in q status code u)) (sym h)
      (on_answer-IsSettled id o status code u)
event-IsSettled u _ _ h (a_choice {id = id} {picked = c} {for_all = for_all}) =
    subst (λ q. IsSettled (choice_in q c for_all u)) (sym h)
      (choose-IsSettled id c (record u { policy = if for_all then some c else u.policy }))

-- Whether the pump waits for something.
abbrev pub is_resting : Phase → Bool
is_resting resting = true
is_resting p = false

resting_iff : (p : Phase) → is_resting p ≡ true → p ≡ resting
resting_iff p h = ground (arith, h)

todo-zero : (u : Uploads) (p : Phase) → u.phase ≡ p → todo u ≤ 0 → p ≡ resting
todo-zero u p e h = ground (arith, e, h)

-- The pump, with a world that gives an event in each state: until it rests, on fuel.
unfoldable pub drain : ℕ → (Uploads → Event) → Uploads → Uploads
drain zero world u = u
drain (suc f) world u =
    let rest = drain f world (step u (world u)) in if is_resting u.phase then u else rest

module _ (world : Uploads → Event)
    (awaited : (u : Uploads) → is_resting u.phase ≡ false → Awaited u.phase (world u)) where
  drain-IsSettled :
      (f : ℕ) (u : Uploads)
      → todo u ≤ f
      → IsSettled u
      → ((drain f world u).phase ≡ resting) × IsSettled (drain f world u)
  unfolding drain
  drain-IsSettled zero u h v = (todo-zero u u.phase refl h, v)
  drain-IsSettled (suc f) u h v = elim (Bool-cases (is_resting u.phase)) [
    | inl r ↦ rw r (resting_iff u.phase r, v)
    | inr r ↦ rw r (
        drain-IsSettled f (step u (world u)) (ground (arith, todo-step u (world u) (awaited u r)))
          (event-IsSettled u u.phase (world u) refl (awaited u r)))
  ]

  -- Whatever the replies and choices are, as long as one comes wherever the pump waits for it: a pump
  -- that is running comes to rest within `todo` of them, and then no item waits, unless the session is over.
  pub drain-rests :
      (f : ℕ) (u : Uploads)
      → is_resting u.phase ≡ false
      → todo u ≤ f
      → ((drain f world u).phase ≡ resting)
        × (((drain f world u).signed_in && ltb 0 (waiting_count (drain f world u).items)) ≡ false)
  drain-rests f u r h =
      let (p, v) = drain-IsSettled f u h (λ q t. ground (arith, q, r)) in (p, ground (arith, v p))
