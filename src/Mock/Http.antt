-- ===== src/Mock/Http.antt =====
-- tool/portal_mock_server.js, lines 376-415: which handler answers a request.
pub mod Tickets
use vault_box.Base.{
  ℕ, ltb, Bool, true, false, not, ◌&&◌, ◌||◌, Option, none, some, if◌then◌else◌, List, [], ◌∷◌,
  ◌++◌, drop, Text, codes, same, starts_with,
}
use vault_box.Base.Dict
use vault_box.Base.Dict.{Dict}
use vault_box.Mock.Tree.{Node, dir, file}
use vault_box.Mock.Server.{Ticket, Server, Request, Reply, error, not_allowed, health}
use vault_box.Mock.Api.{is_method, serve_node, fail}
use vault_box.Mock.Actions.{api}
use vault_box.Mock.Public.{public_api}

abbrev pub is_read : Request → Bool
is_read r = is_method r (codes "GET") || is_method r (codes "HEAD")

-- `serveFile` reads the `data` of its node, which a directory does not have.
serve_data : Request → Text → Node → Reply
serve_data r p (dir m) = Reply.thrown
serve_data r p (file b m) = serve_node r p (file b m)

redeem : Server → Request → Option Ticket → Reply
redeem s r none = error 404 (codes "not_found")
redeem s r (some t) =
    if ltb t.expires r.now then error 404 (codes "not_found") else elim (Dict.get t.path s.tree) [
      | none ↦ error 404 (codes "not_found")
      | some n ↦ if is_read r then serve_data r t.path n else not_allowed (codes "GET, HEAD")
    ]

-- A download by ticket: `/d/<token>`.
unfoldable pub by_ticket : Server → Request → Reply
unfolding redeem serve_data Dict.get
by_ticket s r = redeem s r (Dict.get (drop 3 r.pathname) s.tickets)

abbrev assets : Dict Text
assets =
    (codes "/", codes "index.html")
    ∷ (codes "/index.html", codes "index.html")
    ∷ (codes "/portal.css", codes "portal.css")
    ∷ (codes "/portal.js", codes "portal.js")
    ∷ []

pub is_public_page : Text → Bool
is_public_page p =
    starts_with p (codes "/s/") || starts_with p (codes "/u/") || same p (codes "/public.js")

pub static_page : Request → Reply
static_page r = elim (Dict.get r.pathname assets) [
  | none ↦ error 404 (codes "not_found")
  | some f ↦ if is_read r then Reply.page f else error 404 (codes "not_found")
]

-- What no handler of the API answers: downloads by ticket, the health check and the pages.
pub site : Server → Request → Reply
site s r =
    if starts_with r.pathname (codes "/d/")
    then by_ticket s r
    else if same r.pathname (codes "/health/") || same r.pathname (codes "/health")
    then health
    else if is_public_page r.pathname
    then Reply.page
        (if same r.pathname (codes "/public.js") then codes "public.js" else codes "public.html")
    else static_page r

unfoldable pub handle : Server → Request → Server × Reply
unfolding site is_public_page static_page starts_with
handle s r =
    if starts_with r.pathname (codes "/api/v1/public/")
    then public_api s r
    else if starts_with r.pathname (codes "/api/v1/")
    then api s r
    else (s, site s r)
