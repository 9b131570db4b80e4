-- ===== src/PublicPage/Sending/Order.antt =====
-- assets/portal/public.js, lines 344-365: each file is sent once, in the order of the queue.
use vault_box.Base.{
  ◌≡◌, refl, arith, Bool, true, false, none, some, if◌then◌else◌, List, [], ◌∷◌, ◌++◌, Text, map,
  Option-cases, inl, inr, ◌||◌,
}
use vault_box.PublicPage.Sending.{Status, Item, Queue, Event, start_next, set_status, step}

abbrev pub names : List Item → List Text
names = map (λ i. i.name)

-- The names that wait.
unfoldable pub pending : List Item → List Text
pending [] = []
pending (i ∷ is) = if i.started then pending is else i.name ∷ pending is

abbrev is_nil : List Text → Bool
is_nil [] = true
is_nil (n ∷ ns) = false

-- The requests made so far and the names that wait are the names that were queued, in order; and
-- nothing waits unless a request is under way.
abbrev pub IsInOrder : Queue → Type 0
IsInOrder q =
    (q.requests ++ pending q.items ≡ names q.items)
    × ((q.sending || is_nil (pending q.items)) ≡ true)

pub pending-append :
    (is : List Item) (n : Text) (s : Status)
    → pending (is ++ record { name = n; started = false; status = s } ∷ []) ≡ pending is ++ n ∷ []
unfolding pending
pending-append [] n s = refl
pending-append (i ∷ is) n s = ground (arith, pending-append is n s)

pub pending-set_status : (s : Status) (is : List Item) → pending (set_status s is) ≡ pending is
unfolding pending set_status
pending-set_status s [] = refl
pending-set_status s (i ∷ is) = ground (arith, pending-set_status s is)

pub pending-start_none : (is : List Item) → start_next is ≡ none → pending is ≡ []
unfolding pending start_next
pending-start_none [] h = refl
pending-start_none (i ∷ is) h = elim (Option-cases (start_next is)) [
  | inl e ↦ ground (arith, h, e, pending-start_none is e)
  | inr ((n, js), e) ↦ ground (arith, h, e)
]

pub start_next-some :
    (is : List Item) {n : Text} {js : List Item}
    → start_next is ≡ some (n, js)
    → (pending is ≡ n ∷ pending js) × (names js ≡ names is)
unfolding pending start_next
start_next-some [] h = ground (arith, h)
start_next-some (i ∷ is) h = elim (Option-cases (start_next is)) [
  | inl e ↦ ground (arith, h, e)
  | inr ((m, ks), e) ↦ ground (arith, h, e, start_next-some is e)
]

abbrev pub after : Queue → List Event → Queue
after q [] = q
after q (e ∷ es) = after (step q e) es
