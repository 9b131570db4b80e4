-- ===== src/Mock/Http/Tickets.antt =====
-- tool/portal_mock_server.js, lines 261-271 and 388-393: a ticket from its issue to its use.
use vault_box.Base.{◌≡◌, ◌≢◌, arith, some, Text, codes, ◌++◌, if◌then◌else◌, ltb, ◌+◌, ◌*◌}
use vault_box.Base.Dict
use vault_box.Mock.Tree.{file, slash}
use vault_box.Mock.Server.{Server, Request, error, not_allowed}
use vault_box.Mock.Api.{issue, serve_node}
use vault_box.Mock.Http.{by_ticket, redeem, serve_data, is_read}

-- The ticket for a file other than the root, used at its address while the tree is as it was: for fifteen minutes from
-- its issue, to the millisecond, GET and HEAD are answered with the file, without a session,
-- and any other method with 405; later it is not found.
pub by_ticket-issue :
    (s : Server) (r later : Request) (p : Text) {b : _} {m : _}
    → p ≢ slash
    → Dict.get p s.tree ≡ some (file b m)
    → later.pathname ≡ codes "/d/" ++ r.token
    → by_ticket (issue s r p).0 later ≡ (
        if ltb (r.now + 15 * 60 * 1000) later.now
        then error 404 (codes "not_found")
        else if is_read later
        then serve_node later p (file b m)
        else not_allowed (codes "GET, HEAD"))
unfolding by_ticket redeem serve_data issue
by_ticket-issue s r later p n e u = ground (
  arith,
  n,
  e,
  u,
  Dict.get-set r.token r.token (record { path = p; expires = r.now + 15 * 60 * 1000 }) s.tickets,
)
