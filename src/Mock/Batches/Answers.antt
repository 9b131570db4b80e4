-- ===== src/Mock/Batches/Answers.antt =====
-- tool/portal_mock_server.js, lines 324-373: a batch whose sources are paths of items.
use vault_box.Base.{
  ℕ, ◌+◌, ◌≤◌, ◌≡◌, refl, sym, ap, ◌∙◌, arith, false, true, some, none, if◌then◌else◌, List, [],
  ◌∷◌, length, map, All, Text, codes, same, Bool, Option,
}
use vault_box.Mock.Tree.{Tree, slash, is_dir}
use vault_box.Mock.Tree.Paths.{IsSafePath, parse_path_of_IsSafePath}
use vault_box.Mock.Server.{
  text, array, items_of, Fields, Server, Request, Result, Reply, completed, skipped, failed, batch,
}
use vault_box.Mock.Moves.{Action, move, copy, delete, Policy, skip, batch_loop, count_status}
use vault_box.Mock.Moves.Batch.{batch_loop-sources, count_status-sum}
use vault_box.Mock.Api.{fail}
use vault_box.Mock.Batches.{
  texts_of, sources_of, good, parse_sources, add_source, run_batch, batch_reply, policy_of,
}

-- A path that a batch takes as a source.
abbrev pub IsSource : Text → Type 0
IsSource t = IsSafePath t × (same t slash ≡ false)

texts_of-items_of : (ts : List Text) → texts_of (items_of ts) ≡ some ts
unfolding texts_of items_of
texts_of-items_of [] = refl
texts_of-items_of (t ∷ ts) = rw (texts_of-items_of ts) refl

parse_sources_of : (ts : List Text) → All IsSource ts → parse_sources ts ≡ good ts
unfolding parse_sources add_source
parse_sources_of [] h = refl
parse_sources_of (t ∷ ts) ((s, n), h) =
    rw (parse_path_of_IsSafePath s, parse_sources_of ts h, n) refl

sources_of-items_of :
    (ts : List Text) → 1 ≤ length ts → length ts ≤ 500 → sources_of (array (items_of ts)) ≡ some ts
unfolding sources_of
sources_of-items_of ts h k = ground (arith, texts_of-items_of ts)

-- A deletion of 1 to 500 items gets as far as its loop.
pub run_batch-delete :
    (s : Server) (r : Request) (f : Fields) (ts : List Text)
    → f.paths ≡ array (items_of ts)
    → 1 ≤ length ts
    → length ts ≤ 500
    → All IsSource ts
    → run_batch s r f delete ≡ batch_reply s (batch_loop delete [] skip r.now r.uuid 0 ts s.tree)
unfolding run_batch
run_batch-delete s r f ts e h k safe =
    rw (e, sources_of-items_of ts h k, parse_sources_of ts safe) refl

-- So does a move or a copy to a directory.
pub run_batch-transfer :
    (s : Server) (r : Request) (f : Fields) (is_move : Bool) (ts : List Text) (d : Text)
    (policy : Policy)
    → f.sources ≡ array (items_of ts)
    → f.destination ≡ text d
    → policy_of f.conflict ≡ some policy
    → 1 ≤ length ts
    → length ts ≤ 500
    → All IsSource ts
    → IsSafePath d
    → run_batch s r f (if is_move then move else copy) ≡ (
        if is_dir d s.tree
        then batch_reply s
            (batch_loop (if is_move then move else copy) d policy r.now r.uuid 0 ts s.tree)
        else fail s 409 (codes "destination_not_found"))
unfolding run_batch
run_batch-transfer s r f true ts d policy e e' c h k safe to =
    rw (e, sources_of-items_of ts h k, parse_sources_of ts safe, e', c, parse_path_of_IsSafePath to)
      refl
run_batch-transfer s r f false ts d policy e e' c h k safe to =
    rw (e, sources_of-items_of ts h k, parse_sources_of ts safe, e', c, parse_path_of_IsSafePath to)
      refl

-- An answer to a batch that accounts for some paths: one result for each, in their order, and three
-- counts that add up to their number.
pub record Accounts (paths : List Text) (answer : Reply) : Type 0 where
  pub completed : ℕ
  pub skipped : ℕ
  pub failed : ℕ
  pub results : List Result
  pub is_batch : answer ≡ batch completed skipped failed results
  pub in_order : map (λ r. r.source) results ≡ paths
  pub total : completed + skipped + failed ≡ length paths

length-map-source : (rs : List Result) → length (map (λ r. r.source) rs) ≡ length rs
length-map-source [] = refl
length-map-source (r ∷ rs) = omega (arith, length-map-source rs)

sources_in :
    {qs rs : List Result} {paths : List Text}
    → some qs ≡ some rs
    → map (λ r. r.source) rs ≡ paths
    → map (λ r. r.source) qs ≡ paths
sources_in e k = cc

reply-Accounts :
    (s : Server) (b : Tree × Option (List Result)) (paths : List Text) {rs : List Result}
    → b.1 ≡ some rs
    → map (λ r. r.source) rs ≡ paths
    → Accounts paths (batch_reply s b).1
unfolding batch_reply
reply-Accounts s (tree, none) paths e k = absurd cc
reply-Accounts s (tree, some qs) paths {rs} e k = record {
  completed = count_status completed qs;
  skipped = count_status skipped qs;
  failed = count_status failed qs;
  results = qs;
  is_batch = refl;
  in_order = sources_in e k;
  total = count_status-sum qs ∙ sym (length-map-source qs) ∙ ap length (sources_in e k);
}

pub batch_reply-Accounts :
    (s : Server) (action : Action) (dest : Text) (policy : Policy) (r : Request) (paths : List Text)
    {rs : List Result}
    → (batch_loop action dest policy r.now r.uuid 0 paths s.tree).1 ≡ some rs
    → Accounts paths (batch_reply s (batch_loop action dest policy r.now r.uuid 0 paths s.tree)).1
batch_reply-Accounts s action dest policy r paths {rs} e =
    reply-Accounts s _ paths e (batch_loop-sources action dest policy r.now r.uuid 0 paths s.tree e)
