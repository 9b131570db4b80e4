-- ===== src/Portal/Dialog/Closing.antt =====
-- assets/portal/portal.js, lines 789-841: a dialog resolves once.
use vault_box.Base.{◌≡◌, arith, Option, some, List, [], ◌∷◌}
use vault_box.Portal.Dialog.{Dialog, Event, close, press, submit, step}

module _ {ℓ} {V : Type ℓ} where
  abbrev pub after : Dialog V → List Event → Dialog V
  after d [] = d
  after d (e ∷ es) = after (step d e) es

  step-resolved :
      (d : Dialog V) (e : Event) {v : Option V} → d.resolved ≡ some v → (step d e).resolved ≡ some v
  unfolding step close press submit
  step-resolved d e h = ground (arith, h)

  -- Once a dialog has resolved, no event changes what it has resolved with.
  pub after-resolved :
      (d : Dialog V) (es : List Event) {v : Option V}
      → d.resolved ≡ some v
      → (after d es).resolved ≡ some v
  after-resolved d [] h = h
  after-resolved d (e ∷ es) h = after-resolved (step d e) es (step-resolved d e h)
