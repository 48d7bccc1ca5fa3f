-- ===== src/Lib.antt =====
-- Verification of the two web clients of the helpdesk: the internal client of agents, managers and
-- administrators (web/internal/src) and the client of requesters (web/requester/src).
--
-- The clients are pages over an API server. A page keeps its state, changes it in handlers, and
-- sends requests whose answers come back later; the events of the server arrive over a socket. The
-- model is a translation of that code: a record for the state of a page, a function for each
-- handler, and where answers and actions interleave a step function over a type of events, so that a
-- list of events is a run in which the user and the server do as they like.
--
-- The parts, with their files and the code that each is about:
--   Base          names of the libraries passed on; tests on numbers, texts and lists; Base/Runs: the
--                 run of a page's steps, the requests in flight, and what every step keeps
--   Http          `apiFetch` of web/internal/src/shared/api.ts and of web/requester/src/api.ts. The
--                 server is a function from the requests sent so far and the new one to a reply, so
--                 that it may answer anything at any time; an `async` function is a function from
--                 the world to a result and the world. Http/Convert: how a JSON value becomes a text
--                 or a Boolean
--   Api           the endpoints: Api/Internal and Api/Generic (the `api` object) for
--                 shared/api.ts, Api/Requester for the requester's api.ts, and Api/Upload for
--                 `uploadAttachment` of both, with its loop of attempts; Api/Upload/Clients: the
--                 two uploads against each other. Api/Download: `downloadAttachment` of both
--   Events        `subscribeEvents` of web/internal/src/api.ts: callbacks, socket, timer, backoff;
--                 Events/Live: the registry of callbacks against an abstract one,
--                 Events/Delivery: how a message reaches a page that listens, Events/Status: what a
--                 subscription has last said of its socket. A message during which a callback throws
--                 is an event of its own
--   Debounce      the timer and the answers of a search that waits for the typing to stop; the search
--                 of requesters (Tickets/Search) and that of assignees (Manager) run on it
--   Queries       the queries and mutations of web/internal/src/api.ts
--   Queue         components/agent/QueueList.tsx and the requester's components/TicketList.tsx;
--                 Queue/Live: the agent's list together with its subscription
--   Access        the guards of shared/auth.tsx, `useMe`, and the routes of App.tsx
--   Manager       components/manager/QueueManager.tsx: query, rows, picker of assignees;
--                 Manager/Live: the queue together with its subscription
--   Sidebar       shared/SidebarLayout.tsx: roles, menu, selected entry, titles; Sidebar/Header: the
--                 switcher of roles and the user's menu; Sidebar/Reference: the search for the
--                 selected entry without a sort
--   Tickets       both components/*/CreateTicketModal.tsx (Create), the requester's
--                 components/TicketForm.tsx (Form), and both TicketDetail.tsx: the pending
--                 attachments (Attachments), the agent's page (Detail), the requester's (Reader)
--   Services      the requester's ServiceCatalog.tsx, ServiceForm.tsx and KnowledgeBase.tsx, and the
--                 inputs of TicketForm.tsx
--   Session       components/Login.tsx and components/UserSettings.tsx, and the gate of
--                 web/requester/src/App.tsx (Portal, with its routes); Session/Profile: the load of
--                 the profile
--   Oidc          components/admin/OIDCSettings.tsx: the role mapping; Oidc/Fields: the other inputs
--   Users         components/admin/AdminUsers.tsx; Users/Create: its form for a new user;
--                 Users/Panel: the panel of roles; Users/Flow: the page with its requests in flight
--   Reports       components/agent/CustomerList.tsx and AgentMetrics.tsx, and
--                 components/manager/ManagerAnalytics.tsx
--   Settings      components/admin: StorageSettings.tsx (Storage), MailSettings.tsx and
--                 DiscordSettings.tsx (Mail), AdminSettings.tsx and UserRoleManagement.tsx
--                 (Overview); Settings/Inputs: the inputs of the forms
--   Assets        components/assets: the import wizard (Import; its steps as a relation in
--                 Import/Moves), bulk operations (Bulk), categories (Catalog), checkouts (Checkout),
--                 the filters of list and audit (Listing), the list itself (List), the form (Form)
--                 and the page (Detail) of an asset, the audit page (Audit), analytics and dashboard
--                 (Analytics); the children called View are what a page shows of its data
--   Links         where the pages of the internal client lead, against the guards of the routes
--   Tests         runs at concrete inputs
-- Queue and Tickets call the endpoints of Api and the queries; the pages under Assets call the `api`
-- object; Sidebar's menus lead to the routes of Access, and so do the links of the pages.
--
-- Bounds. `finalize` in Api/Upload recurs on the number of rounds left, which starts at 5 as in the
-- code. Waits are counted in milliseconds and not passed. The backoff of Events doubles up to 30000.
-- `decimal` in Http/Convert has one round for each unit of its number, more than it has digits.
-- Numbers are natural: the code counts, and subtracts only in `truncate`, from a length above 0.
--
-- What is not code of the clients is an argument or a part of the world: the server, the browser's
-- events, the OIDC library's state, the formats of dates and numbers, changes of case, random
-- keys. A request's `path` leaves out the prefix `/api`, and its `query` holds the parameters
-- before their encoding. Not modelled: what only draws (styles, tables, progress bars), the cache
-- of the query library, React Router's choice among overlapping routes, the page's handling of a
-- link that `downloadAttachment` has clicked, and the charts. The API server (cmd/api, internal)
-- is written in another language and is met only as the server of the model.
pub mod Base
pub mod Http
pub mod Api
pub mod Events
pub mod Queries
pub mod Queue
pub mod Manager
pub mod Access
pub mod Sidebar
pub mod Debounce
pub mod Tickets
pub mod Session
pub mod Oidc
pub mod Users
pub mod Settings
pub mod Services
pub mod Reports
pub mod Assets
pub mod Links
pub mod Tests
