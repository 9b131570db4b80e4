-- ===== src/Portal/Uploads/Numbers.antt =====
-- assets/portal/portal.js, lines 1101-1121 and 1219-1287: the ids of the items that wait.
use vault_box.Base.{
  ◌≡◌, refl, ap, subst, arith, ℕ, zero, suc, ◌+◌, ◌≤◌, ◌<◌, Bool, true, false, none, some,
  if◌then◌else◌, List, [], ◌∷◌, ◌++◌, length, any, Text, Option-cases, inl, inr,
}
use vault_box.Portal.Uploads.{
  Item, File, Status, is_waiting, is_active, mark, set_loaded, start_first, new_items,
}
use vault_box.Portal.Uploads.Progress.{is_waiting_status}

-- The ids of the items that wait, in their order.
unfoldable pub waiting_ids : List Item → List ℕ
waiting_ids [] = []
waiting_ids (i ∷ is) = if is_waiting i then i.id ∷ waiting_ids is else waiting_ids is

-- Ids from `lo` on and below `hi`, each above those before it.
abbrev pub Rising : ℕ → List ℕ → ℕ → Type 0
Rising lo [] hi = lo ≤ hi
Rising lo (w ∷ ws) hi = (lo ≤ w) × Rising (suc w) ws hi

pub Rising-weaken : (k lo : ℕ) (ws : List ℕ) (hi : ℕ) → k ≤ lo → Rising lo ws hi → Rising k ws hi
Rising-weaken k lo [] hi h r = omega arith
Rising-weaken k lo (w ∷ ws) hi h (p, r) = (omega arith, r)

abbrev pub upto : ℕ → ℕ → List ℕ
upto n zero = []
upto n (suc k) = n ∷ upto (suc n) k

Rising-upto : (n k : ℕ) → Rising n (upto n k) (n + k)
Rising-upto n zero = omega arith
Rising-upto n (suc k) =
    (omega arith, subst (Rising (suc n) (upto (suc n) k)) (omega arith) (Rising-upto (suc n) k))

pub Rising-append :
    (lo : ℕ) (ws : List ℕ) (n k : ℕ) → Rising lo ws n → Rising lo (ws ++ upto n k) (n + k)
Rising-append lo [] n k r = Rising-weaken lo n (upto n k) (n + k) r (Rising-upto n k)
Rising-append lo (w ∷ ws) n k (p, r) = (p, Rising-append (suc w) ws n k r)

pub waiting_ids-append :
    (is js : List Item) → waiting_ids (is ++ js) ≡ waiting_ids is ++ waiting_ids js
unfolding waiting_ids
waiting_ids-append [] js = refl
waiting_ids-append (i ∷ is) js = ground (arith, waiting_ids-append is js)

pub waiting_ids-new_items :
    (n : ℕ) (root_id dir : Text) (fs : List File)
    → waiting_ids (new_items n root_id dir fs) ≡ upto n (length fs)
unfolding waiting_ids new_items
waiting_ids-new_items n root_id dir [] = refl
waiting_ids-new_items n root_id dir (f ∷ fs) =
    ap (λ l. n ∷ l) (waiting_ids-new_items (suc n) root_id dir fs)

pub waiting_ids-set_loaded :
    (id n : ℕ) (is : List Item) → waiting_ids (set_loaded id n is) ≡ waiting_ids is
unfolding waiting_ids set_loaded
waiting_ids-set_loaded id n [] = refl
waiting_ids-set_loaded id n (i ∷ is) = ground (arith, waiting_ids-set_loaded id n is)

Rising-rest :
    (lo hi : ℕ) (b : Bool) (n : ℕ) (ws : List ℕ)
    → Rising lo (if b then n ∷ ws else ws) hi
    → (b ≡ true → lo ≤ n) × Rising lo ws hi
Rising-rest lo hi true n ws (p, r) = (λ e. p, Rising-weaken lo (suc n) ws hi (omega arith) r)
Rising-rest lo hi false n ws r = (λ e. cc, r)

-- An item with an id below all that wait is none of them.
pub waiting_ids-mark :
    (id lo hi : ℕ) (s : Status) (is : List Item)
    → is_waiting_status s ≡ false
    → id < lo
    → Rising lo (waiting_ids is) hi
    → waiting_ids (mark id s is) ≡ waiting_ids is
unfolding waiting_ids mark is_waiting_status
waiting_ids-mark id lo hi s [] h k r = refl
waiting_ids-mark id lo hi s (i ∷ is) h k r =
    let (above, later) = Rising-rest lo hi (is_waiting i) i.id (waiting_ids is) r in
    ground (arith, above, waiting_ids-mark id lo hi s is h k later)

pub waiting_ids-cleared : (is : List Item) → any is_active is ≡ false → waiting_ids is ≡ []
unfolding waiting_ids
waiting_ids-cleared [] h = refl
waiting_ids-cleared (i ∷ is) h = ground (arith, waiting_ids-cleared is)

pub waiting_ids-start_none : (is : List Item) → start_first is ≡ none → waiting_ids is ≡ []
unfolding waiting_ids start_first
waiting_ids-start_none [] h = refl
waiting_ids-start_none (i ∷ is) h = elim (Option-cases (start_first is)) [
  | inl e ↦ ground (arith, h, e, waiting_ids-start_none is e)
  | inr ((n, js), e) ↦ ground (arith, h, e)
]

pub waiting_ids-start_first :
    (is : List Item) {id : ℕ} {js : List Item}
    → start_first is ≡ some (id, js)
    → waiting_ids is ≡ id ∷ waiting_ids js
unfolding waiting_ids start_first
waiting_ids-start_first [] h = ground (arith, h)
waiting_ids-start_first (i ∷ is) h = elim (Option-cases (start_first is)) [
  | inl e ↦ ground (arith, h, e)
  | inr ((n, js), e) ↦ ground (arith, h, e, waiting_ids-start_first is e)
]
