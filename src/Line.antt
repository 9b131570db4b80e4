-- ===== src/Line.antt =====
-- What both upload queues promise (assets/portal/portal.js, lines 1219-1287, and
-- assets/portal/public.js, lines 344-365): one at a time, first come, first served.
use vault_box.Base.{
  ◌≡◌, refl, sym, ap, ◌∙◌, Bool, true, false, List, [], ◌∷◌, ◌++◌, append_assoc, append-nil,
}

-- Who waits, and whether someone is served.
pub record Line {ℓ} (A : Type ℓ) : Type ℓ where
  pub waiting : List A
  pub busy : Bool

module _ {ℓ} {A : Type ℓ} where
  abbrev pub line : List A → Bool → Line A
  line ws b = record { waiting = ws; busy = b }

  -- A step, with those who come and those who are begun with in it.
  pub data Step : Line A → List A → List A → Line A → Type ℓ where
    arrive : {ws : List A} {b : Bool} (new : List A) → Step (line ws b) new [] (line (ws ++ new) b)
    start : {a : A} {ws : List A} → Step (line (a ∷ ws) false) [] (a ∷ []) (line ws true)
    end : {ws : List A} → Step (line ws true) [] [] (line ws false)

  pub data Steps : Line A → List A → List A → Line A → Type ℓ where
    here : {l : Line A} → Steps l [] [] l
    more :
        {l m n : Line A} {i j o p : List A}
        → Step l i o m
        → Steps m j p n
        → Steps l (i ++ j) (o ++ p) n

  pub Steps-append :
      {l m n : Line A} {i j o p : List A}
      → Steps l i o m
      → Steps m j p n
      → Steps l (i ++ j) (o ++ p) n
  Steps-append here t = t
  Steps-append {j = k} {p = q} (more {i = i} {j = j} {o = o} {p = p} s r) t =
      rw (append_assoc i j k, append_assoc o p q) (more s (Steps-append r t))

  -- Those who were begun with and those who wait are those who waited before and came since, in
  -- their order.
  Step-order : {l m : Line A} {i o : List A} → Step l i o m → o ++ m.waiting ≡ l.waiting ++ i
  Step-order (arrive new) = refl
  Step-order (start {a = a} {ws = ws}) = ap (λ l. a ∷ l) (sym (append-nil ws))
  Step-order end = sym (append-nil _)

  pub Steps-order : {l m : Line A} {i o : List A} → Steps l i o m → o ++ m.waiting ≡ l.waiting ++ i
  Steps-order here = sym (append-nil _)
  Steps-order {l = l} {m = m} (more {m = k} {i = i} {j = j} {o = o} {p = p} s r) =
      append_assoc o p m.waiting
      ∙ ap (λ q. o ++ q) (Steps-order r)
      ∙ sym (append_assoc o k.waiting j)
      ∙ ap (λ q. q ++ j) (Step-order s)
      ∙ append_assoc l.waiting i j
