-- ===== src/Portal/Uploads/Served.antt =====
-- assets/portal/portal.js, lines 1101-1121 and 1219-1287: the pump serves one upload at a time, first
-- come, first served.
use vault_box.Base.{
  ◌≡◌, refl, sym, subst, arith, ℕ, suc, ◌<◌, not, Bool, true, false, Option, none, some,
  if◌then◌else◌, List, [], ◌∷◌, append-nil, Text, codes, inl, inr, ◌⊎◌,
}
use vault_box.Line.{Line, line, Step, start, end, Steps, here, more}
use vault_box.Portal.Uploads.{
  Item, Status, done, skipped, failed, Choice, skip, replace, Phase, resting, sending, asking,
  Uploads, set_loaded, start_first, next, begin, rest_now, settle, choose, decide, finish,
  on_answer, answer_in, choice_in, progress_in, describe_error, own,
}
use vault_box.Portal.Uploads.Progress.{is_waiting_status}
use vault_box.Portal.Uploads.Settled.{is_resting}
use vault_box.Portal.Uploads.Numbers.{
  waiting_ids, Rising, waiting_ids-set_loaded, waiting_ids-mark, waiting_ids-start_first,
}

abbrev pub line_of : Uploads → Line ℕ
line_of u = line (waiting_ids u.items) (not (is_resting u.phase))

abbrev IsBelow : ℕ → Phase → Type 0
IsBelow lo resting = Unit
IsBelow lo (sending id overwrite) = id < lo
IsBelow lo (asking id) = id < lo

-- The ids of the items that wait rise, from above the one that is served on, and are below the next
-- one to be given out.
pub record IsNumbered (u : Uploads) : Type 0 where
  pub lo : ℕ
  pub below : IsBelow lo u.phase
  pub rising : Rising lo (waiting_ids u.items) u.next_id

-- What the pump does from a line on, as steps of it: at most one upload is begun with, by the request
-- that is then sent.
pub record Serves (l : Line ℕ) (came : List ℕ) (v : Uploads) : Type 0 where
  pub begun : List ℕ
  pub steps : Steps l came begun (line_of v)
  pub requested : (begun ≡ []) ⊎ ((id : ℕ) × (begun ≡ id ∷ []) × (v.phase ≡ sending id false))
  pub numbered : IsNumbered v

pub stays : (u : Uploads) → IsNumbered u → Serves (line_of u) [] u
stays u n = record { begun = []; steps = here; requested = inl refl; numbered = n }

pub after-Step :
    {l m : Line ℕ} {i : List ℕ} {v : Uploads} → Step l i [] m → Serves m [] v → Serves l i v
after-Step {l = l} {i = i} {v = v} s r = record {
  begun = r.begun;
  steps = subst (λ j. Steps l j r.begun (line_of v)) (append-nil i) (more s r.steps);
  requested = r.requested;
  numbered = r.numbered;
}

-- Where a test leads to, both ways.
either :
    (b : Bool) {l : Line ℕ} {came : List ℕ} {x y : Uploads}
    → Serves l came x
    → Serves l came y
    → Serves l came (if b then x else y)
either true f g = f
either false f g = g

rest-Serves :
    (u : Uploads) (lo : ℕ)
    → Rising lo (waiting_ids u.items) u.next_id
    → Serves (line (waiting_ids u.items) false) [] (rest_now u)
unfolding rest_now
rest-Serves u lo r = stays (rest_now u) (record { lo = lo; below = tt; rising = r })

begin-Serves :
    (u : Uploads) (o : Option (ℕ × List Item)) (lo : ℕ)
    → start_first u.items ≡ o
    → Rising lo (waiting_ids u.items) u.next_id
    → Serves (line (waiting_ids u.items) false) [] (begin u o)
unfolding begin
begin-Serves u none lo e r = rest-Serves u lo r
begin-Serves u (some (id, js)) lo e r =
    let p = waiting_ids-start_first u.items e in
    let (q, rest) = subst (λ ws. Rising lo ws u.next_id) p r in
    record {
      begun = id ∷ [];
      steps =
          subst (λ ws. Steps (line ws false) [] (id ∷ []) (line (waiting_ids js) true)) (sym p)
            (more start here);
      requested = inr (id, refl, refl);
      numbered = record { lo = suc id; below = omega arith; rising = rest };
    }

pub next-Serves :
    (u : Uploads) (lo : ℕ)
    → Rising lo (waiting_ids u.items) u.next_id
    → Serves (line (waiting_ids u.items) false) [] (next u)
unfolding next
next-Serves u lo r =
    either u.signed_in (begin-Serves u (start_first u.items) lo refl r) (rest-Serves u lo r)

settle-Serves :
    (id lo : ℕ) (s : Status) (u : Uploads)
    → is_waiting_status s ≡ false
    → id < lo
    → Rising lo (waiting_ids u.items) u.next_id
    → Serves (line (waiting_ids u.items) true) [] (settle id s u)
unfolding settle
settle-Serves id lo s u w h r =
    let same_ids = waiting_ids-mark id lo u.next_id s u.items w h r in
    after-Step end (
      subst (λ ws. Serves (line ws false) [] (settle id s u)) same_ids
        (next-Serves _ lo (subst (λ ws. Rising lo ws u.next_id) (sym same_ids) r)))

choose-Serves :
    (id lo : ℕ) (c : Choice) (u : Uploads)
    → id < lo
    → Rising lo (waiting_ids u.items) u.next_id
    → Serves (line (waiting_ids u.items) true) [] (choose id c u)
unfolding choose is_waiting_status
choose-Serves id lo skip u h r = settle-Serves id lo skipped u refl h r
choose-Serves id lo replace u h r =
    let same_ids = waiting_ids-set_loaded id 0 u.items in
    subst (λ ws. Serves (line ws true) [] (choose id replace u)) same_ids
      (stays (choose id replace u) (record {
        lo = lo;
        below = h;
        rising = subst (λ ws. Rising lo ws u.next_id) (sym same_ids) r;
      }))

decide-Serves :
    (id lo : ℕ) (o : Option Choice) (u : Uploads)
    → id < lo
    → Rising lo (waiting_ids u.items) u.next_id
    → Serves (line (waiting_ids u.items) true) [] (decide id o u)
unfolding decide
decide-Serves id lo none u h r =
    stays (record u { phase = asking id }) (record { lo = lo; below = h; rising = r })
decide-Serves id lo (some c) u h r = choose-Serves id lo c u h r

finish-Serves :
    (id lo status : ℕ) (code : Text) (u : Uploads)
    → id < lo
    → Rising lo (waiting_ids u.items) u.next_id
    → Serves (line (waiting_ids u.items) true) [] (finish id status code u)
unfolding finish is_waiting_status
finish-Serves id lo status code u h r = either _ (settle-Serves id lo done u refl h r) (
    either _
      (settle-Serves id lo (failed (own (codes "Signed out"))) (record u { signed_in = false }) refl
        h r)
      (settle-Serves id lo (failed (describe_error code none)) u refl h r))

pub answer-Serves :
    (p : Phase) (status : ℕ) (code : Text) (u : Uploads)
    → u.phase ≡ p
    → IsNumbered u
    → Serves (line_of u) [] (answer_in p status code u)
unfolding answer_in on_answer
answer-Serves resting status code u e n = stays u n
answer-Serves (asking id) status code u e n = stays u n
answer-Serves (sending id o) status code u e n =
    let below = subst (IsBelow n.lo) e n.below in
    subst
      (λ b.
        Serves (line (waiting_ids u.items) (not (is_resting b))) []
          (answer_in (sending id o) status code u))
      (sym e)
      (either _ (decide-Serves id n.lo u.policy u below n.rising)
        (finish-Serves id n.lo status code u below n.rising))

pub choice-Serves :
    (p : Phase) (c : Choice) (for_all : Bool) (u : Uploads)
    → u.phase ≡ p
    → IsNumbered u
    → Serves (line_of u) [] (choice_in p c for_all u)
unfolding choice_in
choice-Serves resting c for_all u e n = stays u n
choice-Serves (sending id o) c for_all u e n = stays u n
choice-Serves (asking id) c for_all u e n =
    subst
      (λ b.
        Serves (line (waiting_ids u.items) (not (is_resting b))) []
          (choice_in (asking id) c for_all u))
      (sym e)
      (choose-Serves id n.lo c (record u { policy = if for_all then some c else u.policy })
        (subst (IsBelow n.lo) e n.below) n.rising)

pub progress-Serves :
    (p : Phase) (loaded : ℕ) (u : Uploads)
    → IsNumbered u
    → Serves (line_of u) [] (progress_in p loaded u)
unfolding progress_in
progress-Serves resting loaded u n = stays u n
progress-Serves (asking id) loaded u n = stays u n
progress-Serves (sending id o) loaded u n =
    let same_ids = waiting_ids-set_loaded id loaded u.items in
    subst
      (λ ws.
        Serves (line ws (not (is_resting u.phase))) []
          (record u { items = set_loaded id loaded u.items }))
      same_ids
      (stays (record u { items = set_loaded id loaded u.items })
        (record {
          lo = n.lo;
          below = n.below;
          rising = subst (λ ws. Rising n.lo ws u.next_id) (sym same_ids) n.rising;
        }))
