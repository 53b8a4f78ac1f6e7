-- ===== src/Lib.antt =====
-- The core logic of SmartCopilot's front end: which routes and menus a user sees, the tabs over
-- the pages, the session and the guard of the navigation, the conversation with the assistant and the
-- stream of its answers, the requests and their failures, the upload of files into the knowledge base
-- and the list of them, the viewer of documents, and the tables.
--
-- How the parts interact: the guard asks the route store to initialise the routes and the auth store
-- whether the user may enter; the auth store resets the route store, the chat store and, for another
-- user, the tabs; the route store builds the menus and the home tab; tabs navigate by the router. The
-- upload store and the state of the requests stand alone: what a failed request does to the session is
-- an effect in the latter. The input box (Stream) changes the messages of the chat store by the payloads
-- of the socket, and asks it for the snapshot of an answer that has come to a halt; the list of files
-- (Files) joins the tasks of the upload store with what the server lists.
--
-- The files and the code that they model:
-- - Common (Tests, Lists, Members, Sort, Tree, Texts, Units): no code of the repository; tests on numbers
--   and texts, lists, a stable sort, trees with optional children, and what JavaScript does on texts, where
--   Units is a text as the list of its UTF-16 units.
-- - Route (Map, Access, Order, Menu, KeyPath, Search, Breadcrumbs; Vue):
--   frontend/src/store/modules/route/shared.ts and frontend/src/router/elegant/transform.ts, whose map of
--   the routes is Map and whose transformation to vue routes is Vue. RouteMeta and RouteInfo are the types
--   of frontend/src/typings/router.d.ts and elegant-router.d.ts; a route is a tree of them.
-- - Tab (Arranged, Labels, Store): frontend/src/store/modules/tab/shared.ts and index.ts; Tab.Store is
--   the state of the store, with a function for each of its operations.
-- - Upload (Chunks, Md5, Progress, Workers, Queue): frontend/src/store/modules/knowledge-base/index.ts
--   and calculateMD5 of frontend/src/utils/common.ts. Workers is a step relation: a step is the end of
--   one request, in any order. Queue takes the ends of uploads as events.
-- - Chat (Snapshot, LastMatch, Upsert, Sessions, Laws, Connection, RateLimit):
--   frontend/src/store/modules/chat/index.ts, with the types of frontend/src/typings/api.d.ts.
--   Connection takes what the socket tells as events.
-- - Account (Registry, Auth, Guard; Reset, Unique): frontend/src/store/modules/route/index.ts,
--   frontend/src/store/modules/auth/index.ts and shared.ts, frontend/src/router/routes/index.ts and
--   frontend/src/router/guard/route.ts, over one state of all these stores. Pushes: the locations that
--   frontend/src/hooks/common/router.ts pushes.
-- - Stream (Handlers, Box, Sending, Models, Monitor; Answers, Send, Pieces, Ends, Ticks):
--   frontend/src/views/chat/modules/input-box.vue. Handlers is what a payload does to its answer, Box the
--   state of the component, Sending the send button, Models the choice of a model, Monitor the interval
--   that watches an answer; the others are about them.
-- - ChatMessage (Urls): frontend/src/views/chat/modules/chat-message.vue.
-- - Files (Lists, Deletes, Races, Resumes): frontend/src/views/knowledge-base/index.vue.
-- - Pdf (Bounds, Summaries, Shift, Drain, Renders, Match, Merged, Bigrams, Dice):
--   frontend/src/components/custom/pdf-document-viewer.vue: its pages and zoom, the queue of the summaries
--   of pages, the queue of drawings, and the match of an anchor with the text of a page.
-- - Table (Found, Columns): frontend/packages/hooks/src/use-table.ts and
--   frontend/src/hooks/common/table.ts.
-- - Service: frontend/src/utils/service.ts and frontend/build/config/proxy.ts.
-- - Storage: frontend/packages/utils/src/storage.ts, whose `createStorage` it models.
-- - Request (Events, Refreshes, Messages; Client): frontend/src/service/request/index.ts and shared.ts, and the
--   error that frontend/packages/axios/src/index.ts makes of a failed response; the callbacks are
--   functions on the state of the request instance, and Events is any order of them. Client is the
--   interceptors and abort controllers of the same package.
-- - Tests: runs on small inputs.
--
-- A name of the source is written with underscores: clearLeftTabs is clear_left_tabs. State is passed
-- explicitly; undefined and null are `none`, a missing optional flag is false. An object in a list
-- that the source changes by reference is changed in its place in the list.
--
-- Parameters of the model: the translation and the menu icon of the build (Env), the build's settings
-- and generated routes (Config), the router's pushes (Push, Router), the servers' answers (Server),
-- the digest of a file, the text of a time, the normal form and the small letters of a text, the
-- components of layouts and views, and the text that stands for a stored value (Json). A server has a state of its own; a router's push may do anything to the
-- store that it gets, unless a statement says what it leaves.
--
-- Bounds: the loop of the digest takes fuel, and any fuel above the number of chunks is enough. All
-- else is structural. At most three files upload at once and four chunks of one, as in the source. The
-- order of a route and the index of a fixed tab are natural numbers, times are milliseconds, and texts
-- are sorted by code points.
--
-- What runs without being waited for: the refresh of the user after the guard is only counted; the
-- reset that initUserInfo and login start, and the clearing of the tabs at login, run to their end
-- at once. Requests of one operation of the chat store run in their order, with no other operation
-- between them.
--
-- The interval of Monitor gets the answer to its request before the next tick. The zoom of a document
-- is counted in hundredths, as both steps round it. A payload whose field has another type than its own
-- is read as one without it, except for the error and the code: an error that is no text keeps whether
-- it counts as true, and a code that is no number keeps the number that it is read as.
--
-- Not modelled: the address of the socket, the marks of citations in messages and the candidates of an
-- anchor (regular expressions), the scores and rectangles of a match and the drawing of a page (floating
-- point, the canvas), loading flags and notices of the auth store, the theme and app stores, the other
-- pages, the packages for colours, components and scripts, and all Vue templates, which are presentation
-- or wrap libraries; the Python service, which is seen by its answers only.
pub mod Common
pub mod Route
pub mod Tab
pub mod Upload
pub mod Chat
pub mod Account
pub mod Request
pub mod Stream
pub mod Pdf
pub mod Files
pub mod Table
pub mod Service
pub mod Storage
pub mod ChatMessage
mod Tests
