-- ===== src/Portal/Uploads/Order.antt =====
-- assets/portal/portal.js, lines 1101-1121 and 1219-1287: the order of the uploads, over any events.
use vault_box.Base.{
  ◌≡◌, refl, sym, ap, ◌∙◌, subst, ℕ, ◌+◌, not, Bool, true, false, none, if◌then◌else◌, List, [],
  ◌∷◌, ◌++◌, length, any, Text,
}
use vault_box.Line.{line, arrive, Steps, here, Steps-append}
use vault_box.Portal.Uploads.{
  File, Phase, resting, sending, asking, Uploads, Event, queued, progress, answered, chosen,
  cleared, session_ended, session_started, is_active, new_items, next, pump, queue_uploads, step,
}
use vault_box.Portal.Uploads.Settled.{is_resting}
use vault_box.Portal.Uploads.Numbers.{
  waiting_ids, Rising, Rising-append, upto, waiting_ids-append, waiting_ids-new_items,
  waiting_ids-cleared,
}
use vault_box.Portal.Uploads.Served.{
  line_of, IsNumbered, Serves, stays, after-Step, next-Serves, answer-Serves, choice-Serves,
  progress-Serves,
}

-- The ids of the files that an event adds.
abbrev pub newcomers : Uploads → Event → List ℕ
newcomers u (queued writable root_id dir files) =
    if writable then upto u.next_id (length files) else []
newcomers u e = []

pump_busy : (u : Uploads) (p : Phase) → u.phase ≡ p → is_resting p ≡ false → pump u ≡ u
unfolding pump
pump_busy u resting e b = cc
pump_busy u (sending id o) e b = rw e refl
pump_busy u (asking id) e b = rw e refl

pump-Serves :
    (p : Phase) (u : Uploads) → u.phase ≡ p → IsNumbered u → Serves (line_of u) [] (pump u)
unfolding pump
pump-Serves resting u e n =
    subst
      (λ q. Serves (line (waiting_ids u.items) (not (is_resting q))) [] (elim q as (λ x. Uploads) [
        | resting ↦ next (record u { policy = none; any_done = false })
        | _ ↦ u
      ]))
      (sym e) (next-Serves (record u { policy = none; any_done = false }) n.lo n.rising)
pump-Serves (sending id o) u e n =
    subst (Serves (line_of u) []) (sym (pump_busy u (sending id o) e refl)) (stays u n)
pump-Serves (asking id) u e n =
    subst (Serves (line_of u) []) (sym (pump_busy u (asking id) e refl)) (stays u n)

added : Text → Text → List File → Uploads → Uploads
added root_id dir fs u = record u {
  items = u.items ++ new_items u.next_id root_id dir fs;
  next_id = u.next_id + length fs;
}

waiting_ids-added :
    (root_id dir : Text) (fs : List File) (u : Uploads)
    → waiting_ids (added root_id dir fs u).items ≡ waiting_ids u.items ++ upto u.next_id (length fs)
unfolding added
waiting_ids-added root_id dir fs u =
    waiting_ids-append u.items (new_items u.next_id root_id dir fs)
    ∙ ap (λ l. waiting_ids u.items ++ l) (waiting_ids-new_items u.next_id root_id dir fs)

queue-Serves :
    (root_id dir : Text) (fs : List File) (u : Uploads)
    → IsNumbered u
    → Serves (line_of u) (upto u.next_id (length fs)) (queue_uploads root_id dir fs u)
unfolding queue_uploads added
queue-Serves root_id dir [] u n = stays u n
queue-Serves root_id dir (f ∷ fs) u n =
    let v = added root_id dir (f ∷ fs) u in
    let ids = waiting_ids-added root_id dir (f ∷ fs) u in
    after-Step (arrive (upto u.next_id (length (f ∷ fs)))) (
      subst (λ ws. Serves (line ws (not (is_resting u.phase))) [] (pump v)) ids
        (pump-Serves u.phase v refl (record {
          lo = n.lo;
          below = n.below;
          rising =
              subst (λ ws. Rising n.lo ws v.next_id) (sym ids)
                (Rising-append n.lo (waiting_ids u.items) u.next_id (length (f ∷ fs)) n.rising);
        })))

cleared-Serves :
    (b : Bool) (u : Uploads)
    → any is_active u.items ≡ b
    → IsNumbered u
    → Serves (line_of u) [] (if b then u else record u { items = [] })
unfolding waiting_ids
cleared-Serves true u e n = stays u n
cleared-Serves false u e n =
    let none_waits = waiting_ids-cleared u.items e in
    subst (λ ws. Serves (line ws (not (is_resting u.phase))) [] (record u { items = [] }))
      (sym none_waits)
      (stays (record u { items = [] })
        (record {
          lo = n.lo;
          below = n.below;
          rising = subst (λ ws. Rising n.lo ws u.next_id) none_waits n.rising;
        }))

session-Serves :
    (b : Bool) (u : Uploads) → IsNumbered u → Serves (line_of u) [] (record u { signed_in = b })
session-Serves b u n =
    stays (record u { signed_in = b }) (record { lo = n.lo; below = n.below; rising = n.rising })

pub step-Serves :
    (u : Uploads) (e : Event) → IsNumbered u → Serves (line_of u) (newcomers u e) (step u e)
unfolding step
step-Serves u (queued true root_id dir files) n = queue-Serves root_id dir files u n
step-Serves u (queued false root_id dir files) n = stays u n
step-Serves u (progress loaded) n = progress-Serves u.phase loaded u n
step-Serves u (answered status code) n = answer-Serves u.phase status code u refl n
step-Serves u (chosen picked for_all) n = choice-Serves u.phase picked for_all u refl n
step-Serves u cleared n = cleared-Serves (any is_active u.items) u refl n
step-Serves u session_ended n = session-Serves false u n
step-Serves u session_started n = session-Serves true u n

abbrev pub after : Uploads → List Event → Uploads
after u [] = u
after u (e ∷ es) = after (step u e) es

abbrev pub all_newcomers : Uploads → List Event → List ℕ
all_newcomers u [] = []
all_newcomers u (e ∷ es) = newcomers u e ++ all_newcomers (step u e) es

-- Whatever is added, answered, chosen, cleared and whenever the session ends: what the pump does are
-- steps of a line that serves one at a time, first come, first served, in which those who come are
-- the files that are added and those who wait are the items that wait.
pub after-Steps :
    (u : Uploads) (es : List Event)
    → IsNumbered u
    → (begun : List ℕ) × Steps (line_of u) (all_newcomers u es) begun (line_of (after u es))
after-Steps u [] n = ([], here)
after-Steps u (e ∷ es) n =
    let s = step-Serves u e n in
    let (later, t) = after-Steps (step u e) es s.numbered in
    (s.begun ++ later, Steps-append s.steps t)
