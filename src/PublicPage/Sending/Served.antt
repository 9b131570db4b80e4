-- ===== src/PublicPage/Sending/Served.antt =====
-- assets/portal/public.js, lines 344-365: the queue serves one file at a time, first come, first served.
use vault_box.Base.{◌≡◌, List, [], ◌∷◌, ◌++◌, Text}
use vault_box.Line.{Line, line, Steps}
use vault_box.PublicPage.Sending.{Queue, Event, queued, ended}
use vault_box.PublicPage.Sending.Order.{pending}

abbrev pub line_of : Queue → Line Text
line_of q = line (pending q.items) q.sending

abbrev pub newcomers : Event → List Text
newcomers (queued name) = name ∷ []
newcomers (ended s) = []

abbrev pub all_newcomers : List Event → List Text
all_newcomers [] = []
all_newcomers (e ∷ es) = newcomers e ++ all_newcomers es

-- What one queue after another has done, as steps of the line.
pub record Served (q : Queue) (came : List Text) (r : Queue) : Type 0 where
  pub begun : List Text
  pub steps : Steps (line_of q) came begun (line_of r)
  pub requested : r.requests ≡ q.requests ++ begun
