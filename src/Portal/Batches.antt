-- ===== src/Portal/Batches.antt =====
-- assets/portal/portal.js, lines 973-1022: what the tools do with all the entries that are chosen.
pub mod Transfers
use vault_box.Base.{
  ℕ, zero, suc, ◌==◌, ltb, Bool, true, false, not, ◌&&◌, Option, none, some, if◌then◌else◌, List,
  [], ◌∷◌, ◌++◌, map, length, Text, codes, same, starts_with, non_empty, decimal, String,
}
use vault_box.Base.Uri.{encode}
use vault_box.Mock.Serve.{Property, own, inherited, missing}
use vault_box.Mock.Server.{
  Json, absent, text, array, items_of, Fields, no_fields, Status, completed, skipped, failed,
  Result,
}
use vault_box.Dom.{Node, none_more, h, attr, given, flag}
use vault_box.Portal.Words.{Kind, image, video, audio, plain_text, other, join_path, describe_error}
use vault_box.Portal.Folder.{Entry}
use vault_box.Portal.Dialog.{Action}
use vault_box.Portal.Actions.{Answer, Effect, toast, reload, Call, call, root_url, tell}

abbrev pub paths_in : Text → List Entry → List Text
paths_in path = map (λ e. join_path path e.name)

-- `deleteEntries`, which is asked for with at least one entry: the question, and the request if it is
-- answered with yes.
pub delete_title : Entry → List Entry → Text
delete_title e [] = codes "Delete “" ++ e.name ++ codes "”?"
delete_title e (d ∷ es) = codes "Delete " ++ decimal (length (e ∷ d ∷ es)) ++ codes " items?"

unfoldable pub delete_entries : (root_id path : Text) → List Entry → (agreed : Bool) → Option Call
unfolding call root_url join_path items_of
delete_entries root_id path es agreed =
    if not agreed
    then none
    else call (root_url root_id (codes "delete"))
        (record no_fields { paths = array (items_of (paths_in path es)) })

pub data Conflict : Type 0 where
  skip keep_both replace : Conflict

unfoldable pub conflict_text : Conflict → Text
conflict_text skip = codes "skip"
conflict_text keep_both = codes "keepBoth"
conflict_text replace = codes "replace"

pub record Choice : Type 0 where
  pub path : Text
  pub conflict : Conflict

-- `moveOrCopy`: the picker's title, and the request for what was picked.
abbrev what : List Entry → Text
what (e ∷ []) = codes "“" ++ e.name ++ codes "”"
what es = decimal (length es) ++ codes " items"

pub picker_title : (is_move : Bool) → List Entry → Text
picker_title is_move es =
    (if is_move then codes "Move " else codes "Copy ") ++ what es ++ codes " to…"

unfoldable pub move_or_copy :
    (is_move : Bool) → (root_id path : Text) → List Entry → Option Choice → Option Call
unfolding call root_url join_path items_of conflict_text
move_or_copy is_move root_id path es none = none
move_or_copy is_move root_id path es (some c) =
    call (root_url root_id (if is_move then codes "move" else codes "copy")) (record no_fields {
      sources = array (items_of (paths_in path es));
      destination = text c.path;
      conflict = text (conflict_text c.conflict);
    })

-- The answer to a batch, as `reportBatch` reads it.
pub record Report : Type 0 where
  pub completed : ℕ
  pub skipped : ℕ
  pub failed : ℕ
  pub results : List Result

abbrev part : ℕ → String → List Text
part n words = if n == 0 then [] else (decimal n ++ b' ' ∷ codes words) ∷ []

-- `parts.join(" · ")`
unfoldable pub join_parts : List Text → Text
join_parts [] = []
join_parts (p ∷ []) = p
join_parts (p ∷ q ∷ ps) = p ++ codes " · " ++ join_parts (q ∷ ps)

-- The message of the first result that is not completed and has one.
pub problem : List Result → Option Text
problem [] = none
problem (r ∷ rs) =
    let later = problem rs in
    elim r.status [
      | Status.completed ↦ later
      | s ↦ elim r.message [ none ↦ later | some [] ↦ later | some (c ∷ m) ↦ some (c ∷ m) ]
    ]

abbrev or_nothing_to_do : Text → Text
or_nothing_to_do [] = codes "Nothing to do"
or_nothing_to_do (c ∷ t) = c ∷ t

unfoldable pub report_batch : Report → (done_words : String) → Effect
unfolding join_parts problem decimal
report_batch r done_words =
    toast
      (own (
        or_nothing_to_do (
          join_parts
            (part r.completed done_words ++ part r.skipped "skipped" ++ part r.failed "failed"))
        ++ elim (problem r.results) [ none ↦ [] | some m ↦ codes ". " ++ m ]))
      (ltb 0 r.failed)

unfoldable pub batch_done : (done_words : String) → Answer Report → List Effect
unfolding report_batch tell
batch_done done_words answer = tell answer (λ r. report_batch r done_words ∷ reload ∷ [])
