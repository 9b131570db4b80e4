-- ===== src/Mock/Actions/Refused.antt =====
-- tool/portal_mock_server.js, lines 208-374: a request to the API that is refused changes nothing.
use vault_box.Base.{arith, Bool, true, false, Option, Text, List, none, some, [], codes}
use vault_box.Base.Dict
use vault_box.Mock.Actions.{
  api, signed_in, root_request, root_action, change_action, post_action, fields_of, bearer,
  api_segs, batch_loop, skip, fail,
}
use vault_box.Mock.Entries.{
  mkdir, mkdir_at, make_dir, rename, rename_fields, rename_parsed, rename_at, rename_to,
}
use vault_box.Mock.Batches.{
  bad, hidden, good, run_batch, batch_texts, batch_sources, batch_paths, batch_transfer,
  transfer_to, batch_into, batch_reply, Sources, parse_sources, policy_of, sources_of, list_field,
}
use vault_box.Mock.Server.{logged_out, Server, Request, Json, text, Fields, Result}
use vault_box.Mock.Tree.{Tree, Parsed, at, parse_path}
use vault_box.Mock.Moves.{Action, move, copy, delete, Policy}
use vault_box.Mock.Api.Refused.{
  KeepsOnRefusal, login-KeepsOnRefusal, issue_ticket-KeepsOnRefusal, content_action-KeepsOnRefusal,
  same_server, if-KeepsOnRefusal,
}
use vault_box.Mock.Actions.Invariant.{api_lem}

mkdir-KeepsOnRefusal : (s : Server) (r : Request) (f : Fields) → KeepsOnRefusal s (mkdir s r f)
unfolding KeepsOnRefusal mkdir mkdir_at make_dir
mkdir-KeepsOnRefusal s r f h = ground (arith, h)

rename_fields-KeepsOnRefusal : (s : Server) (p n : Json) → KeepsOnRefusal s (rename_fields s p n)
unfolding KeepsOnRefusal rename_fields rename_parsed rename_at rename_to
rename_fields-KeepsOnRefusal s p n h = ground (arith, h)

rename-KeepsOnRefusal : (s : Server) (f : Fields) → KeepsOnRefusal s (rename s f)
unfolding rename
rename-KeepsOnRefusal s f = rename_fields-KeepsOnRefusal s f.path f.new_name

batch_reply-KeepsOnRefusal :
    (s : Server) (b : Tree × Option (List Result)) → KeepsOnRefusal s (batch_reply s b)
unfolding KeepsOnRefusal batch_reply
batch_reply-KeepsOnRefusal s (tree, none) h = ground (arith, h)
batch_reply-KeepsOnRefusal s (tree, some rs) h = ground (arith, h)

module _ (s : Server) (r : Request) where
  batch_into-KeepsOnRefusal :
      (a : Action) (sources : List Text) (policy : Policy) (dest : Parsed)
      → KeepsOnRefusal s (batch_into s r a sources policy dest)
  unfolding batch_into
  batch_into-KeepsOnRefusal a sources policy Parsed.null = same_server _ _
  batch_into-KeepsOnRefusal a sources policy Parsed.reserved = same_server _ _
  batch_into-KeepsOnRefusal a sources policy (at d) =
      if-KeepsOnRefusal _ _ _ _ (batch_reply-KeepsOnRefusal s _) (same_server _ _)

  transfer_to-KeepsOnRefusal :
      (a : Action) (sources : List Text) (policy : Option Policy) (dest : Json)
      → KeepsOnRefusal s (transfer_to s r a sources policy dest)
  unfolding transfer_to
  transfer_to-KeepsOnRefusal a sources (some policy) (text d) =
      batch_into-KeepsOnRefusal a sources policy (parse_path (some d))
  transfer_to-KeepsOnRefusal a sources (some policy) d = same_server _ _
  transfer_to-KeepsOnRefusal a sources none d = same_server _ _

  batch_paths-KeepsOnRefusal :
      (f : Fields) (a : Action) (sources : List Text)
      → KeepsOnRefusal s (batch_paths s r f a sources)
  unfolding batch_paths batch_transfer
  batch_paths-KeepsOnRefusal f move sources =
      transfer_to-KeepsOnRefusal move sources (policy_of f.conflict) f.destination
  batch_paths-KeepsOnRefusal f copy sources =
      transfer_to-KeepsOnRefusal copy sources (policy_of f.conflict) f.destination
  batch_paths-KeepsOnRefusal f delete sources =
      batch_reply-KeepsOnRefusal s (batch_loop delete [] skip r.now r.uuid 0 sources s.tree)

  batch_sources-KeepsOnRefusal :
      (f : Fields) (a : Action) (q : Sources) → KeepsOnRefusal s (batch_sources s r f a q)
  unfolding batch_sources
  batch_sources-KeepsOnRefusal f a bad = same_server _ _
  batch_sources-KeepsOnRefusal f a hidden = same_server _ _
  batch_sources-KeepsOnRefusal f a (good sources) = batch_paths-KeepsOnRefusal f a sources

  batch_texts-KeepsOnRefusal :
      (f : Fields) (a : Action) (q : Option (List Text)) → KeepsOnRefusal s (batch_texts s r f a q)
  unfolding batch_texts
  batch_texts-KeepsOnRefusal f a none = same_server _ _
  batch_texts-KeepsOnRefusal f a (some texts) =
      batch_sources-KeepsOnRefusal f a (parse_sources texts)

  run_batch-KeepsOnRefusal : (f : Fields) (a : Action) → KeepsOnRefusal s (run_batch s r f a)
  unfolding run_batch
  run_batch-KeepsOnRefusal f a = batch_texts-KeepsOnRefusal f a (sources_of (list_field a f))

  post_action-KeepsOnRefusal :
      (segs : List Text) (f : Fields) → KeepsOnRefusal s (post_action s r segs f)
  unfolding post_action
  post_action-KeepsOnRefusal segs f =
      search
        (
          if-KeepsOnRefusal,
          same_server,
          mkdir-KeepsOnRefusal s r f,
          rename-KeepsOnRefusal s f,
          run_batch-KeepsOnRefusal f move,
          run_batch-KeepsOnRefusal f copy,
          run_batch-KeepsOnRefusal f delete,
        )
        depth 12

  fields-KeepsOnRefusal :
      (segs : List Text) (q : Option Fields)
      → KeepsOnRefusal s
          (elim q [ none ↦ fail s 400 (codes "bad_request") | some f ↦ post_action s r segs f ])
  fields-KeepsOnRefusal segs none = same_server _ _
  fields-KeepsOnRefusal segs (some f) = post_action-KeepsOnRefusal segs f

  change_action-KeepsOnRefusal :
      (w : Bool) (segs : List Text) → KeepsOnRefusal s (change_action w s r segs)
  unfolding change_action
  change_action-KeepsOnRefusal w segs =
      search (if-KeepsOnRefusal, same_server, fields-KeepsOnRefusal segs (fields_of r.body))

  root_action-KeepsOnRefusal :
      (w : Bool) (segs : List Text) → KeepsOnRefusal s (root_action w s r segs)
  unfolding root_action
  root_action-KeepsOnRefusal w segs = search (
    if-KeepsOnRefusal,
    same_server,
    issue_ticket-KeepsOnRefusal s r r.body,
    content_action-KeepsOnRefusal w s r,
    change_action-KeepsOnRefusal w segs,
  )

  root_request-KeepsOnRefusal : (segs : List Text) → KeepsOnRefusal s (root_request s r segs)
  unfolding root_request
  root_request-KeepsOnRefusal segs = search (
    if-KeepsOnRefusal,
    same_server,
    root_action-KeepsOnRefusal true segs,
    root_action-KeepsOnRefusal false segs,
  )

  logout-KeepsOnRefusal :
      (token : Text)
      → KeepsOnRefusal s (record s { sessions = Dict.delete token s.sessions }, logged_out)
  unfolding KeepsOnRefusal
  logout-KeepsOnRefusal token h = ground (arith, h)

  signed_in-KeepsOnRefusal :
      (token : Text) (segs : List Text) → KeepsOnRefusal s (signed_in s r token segs)
  unfolding signed_in
  signed_in-KeepsOnRefusal token segs = search (
    if-KeepsOnRefusal,
    same_server,
    logout-KeepsOnRefusal token,
    root_request-KeepsOnRefusal segs,
  )

  pub api-KeepsOnRefusal : KeepsOnRefusal s (api s r)
  api-KeepsOnRefusal = rw api_lem (
      search (
        if-KeepsOnRefusal,
        same_server,
        login-KeepsOnRefusal s r,
        signed_in-KeepsOnRefusal (bearer r.authorization) (api_segs r),
      ))
