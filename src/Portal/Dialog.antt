-- ===== src/Portal/Dialog.antt =====
-- assets/portal/portal.js, lines 784-876: dialogs, and the names that are typed into them.
pub mod Closing
pub mod Names
use vault_box.Base.{
  ℕ, zero, suc, ltb, ◌+◌, ◌==◌, Bool, true, false, not, ◌&&◌, ◌||◌, Option, none, some,
  if◌then◌else◌, List, [], ◌∷◌, ◌++◌, Text, codes, trim, non_empty, has_char, decimal, get_elem?,
}

pub record Action {ℓ} (V : Type ℓ) : Type ℓ where
  pub value : V
  pub submit : Bool

-- A dialog: its buttons, and what it has resolved with; `some none` is null.
pub record Dialog {ℓ} (V : Type ℓ) : Type ℓ where
  pub actions : List (Action V)
  pub resolved : Option (Option V)

-- A button, by its place; the form; the cross, or the key that cancels. `checked` is what the
-- submit action's `check` says, true where it has none.
pub data Event : Type 0 where
  pressed : ℕ → Event
  submitted : (checked : Bool) → Event
  dismissed : Event

module _ {ℓ} {V : Type ℓ} where
  pub close : Option V → Dialog V → Dialog V
  close v d = elim d.resolved [ none ↦ record d { resolved = some v } | some w ↦ d ]

  -- `actions.filter(submit)[0]`
  pub submit_action : List (Action V) → Option V
  submit_action [] = none
  submit_action (a ∷ rest) =
      let more = submit_action rest in if a.submit then some a.value else more

  press : Option (Action V) → Dialog V → Dialog V
  press none d = d
  press (some a) d = if a.submit then d else close (some a.value) d

  submit : Option V → Bool → Dialog V → Dialog V
  submit none checked d = d
  submit (some v) checked d = if checked then close (some v) d else d

  -- A button of type submit acts by the form's event, which the browser fires for it.
  unfoldable pub step : Dialog V → Event → Dialog V
  unfolding close submit_action press submit
  step d (pressed i) = press (get_elem? d.actions i) d
  step d (submitted checked) = submit (submit_action d.actions) checked d
  step d dismissed = close none d

-- The problem that `promptText` shows for what was typed, if there is one.
pub problem_of : Text → Option Text
problem_of typed =
    if not (non_empty (trim typed))
    then some (codes "Enter a name.")
    else if has_char b'/' (trim typed) || has_char b'\\' (trim typed)
    then some (codes "A name can't contain / or \\.")
    else none

abbrev pub is_none {ℓ} : {A : Type ℓ} → Option A → Bool
is_none none = true
is_none (some a) = false

-- What `promptText` gives for a dialog that was submitted, or not, with a text.
unfoldable pub prompt_text : (confirmed : Bool) → (typed : Text) → Option Text
unfolding problem_of trim
prompt_text confirmed typed =
    if confirmed && is_none (problem_of typed) then some (trim typed) else none
