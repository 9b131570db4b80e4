-- ===== src/Lib.antt =====
-- VaultBox turns a phone into a file server. This library models the code of the repository that is
-- written in JavaScript, and proves what makes it correct: the portal that browsers load from the
-- phone (assets/portal/portal.js), the page of a public link (assets/portal/public.js), and the
-- server that stands in for the phone's while the portal is developed
-- (tool/portal_mock_server.js), which has the same API with the same rules for paths.
--
-- How the parts interact: the portal and the public page send requests to the API; the mock server
-- answers them from a tree of files, with sessions, download tickets, links and their unlocks. The
-- server's handlers are functions from a state and a request to a state and a reply; the pages are
-- functions from a state and an event to a state, one event for each click, reply or answer.
--
-- Base holds what the parts share: Boolean tests, lists, texts as lists of UTF-16 code units
-- (Base.Chars), a Map as the list of its entries in insertion order (Base.Dict), and
-- encodeURIComponent and decodeURIComponent (Base.Uri). Dom has the elements that both pages build
-- with h and append, and what is markup and what is text in them (Dom.Outline). Line says what both
-- upload queues promise: one at a time, first come, first served.
--
-- Mock, of tool/portal_mock_server.js:
--   Mock.Tree: the map of paths to nodes, parsePath, parentOf, nameOf, isDir, children, seed
--   Mock.Listing: the entries action with limit and cursor
--   Mock.Serve: mimeOf, disposition, serveFile and its ranges
--   Mock.Server: the state, and what a request and a reply are
--   Mock.Moves: the loops of rename, move, copy and delete, and the conflict policies
--   Mock.Api, Mock.Entries, Mock.Batches, Mock.Actions: the function api, in the order of its
--     checks
--   Mock.Public: publicApi
--   Mock.Http: the handler of createServer, with tickets and pages
--   Mock.Wire: readBody, and the headers of send
--   Mock.Safety: runs of requests in any order
-- Portal, of assets/portal/portal.js:
--   Portal.Words: formatBytes, kindOf, joinPath, parentPath, MESSAGES, describeError
--   Portal.Route: the roots, buildHash, parseHash, goTo, route
--   Portal.Session: request, endSession, signOut, login, enterApp, boot
--   Portal.Login: renderLogin, its form and what it sends
--   Portal.Folder: loadDirectory, sortEntries, selection, renderToolbar, renderCrumbs, renderFiles
--   Portal.Elements, Portal.View, Portal.Shell: icon, button, and the elements of roots, crumbs,
--     toolbar, table and page; dragging and dropping, collectDropped, warnIfUploading
--   Portal.Dialog: showDialog, promptText
--   Portal.Actions, Portal.Batches: tickets, downloads, previews, newFolder, renameEntry;
--     deleteEntries, moveOrCopy, reportBatch; below them, the same requests answered by
--     Mock.Http.handle
--   Portal.Picker: pickFolder
--   Portal.Uploads: queueUploads, pump, uploadOne, sendFile, askReplace, renderUploads, paintUpload
-- PublicPage, of assets/portal/public.js:
--   PublicPage.Flow: the token, messages, contentUrl, load
--   PublicPage.Password: request, askPassword; below it, the form with Mock.Public
--   PublicPage.Folder: loadFolder, crumbs
--   PublicPage.View: the elements of each card and of a folder
--   PublicPage.Sending: queue, pump, send, and the row of a file
--
-- Bounds and fuel: all numbers are natural numbers and none wraps around, as sizes, times and
-- counts are far below 2 ^ 53; a length that the code lets become negative is an integer. Two loops
-- run on fuel: the search for a free numbered name (Mock.Moves.free_index), for which one more than
-- the number of keys is enough, and the pump of the uploads with the world that answers it
-- (Portal.Uploads.Settled.drain), for which three times the number of waiting items and three is.
--
-- At the boundary: what JSON.parse, Number, the clock, the random source and the browser give is an
-- argument or an event. The lower case of a text is that of ASCII, which is all that the code
-- compares with. The order of the collator is a parameter of the portal's sort. How the browser
-- writes a function as a text, which a message of an inherited name is, is an argument of the views.
--
-- Not modelled: the frame of the dialogs, focus, the formatting of dates (formatWhen), which is an
-- argument, and a sessionStorage that refuses to be read or written.
-- A handler of the server is one step, though it waits for the request's body and another one may
-- run meanwhile. The app itself (lib/, in Dart), the platform code (android/, in Kotlin) and the
-- tool that embeds the portal in the app (tool/embed_portal.py) are other languages.
pub mod Base
pub mod Dom
pub mod Line
pub mod Mock
pub mod Portal
pub mod PublicPage
