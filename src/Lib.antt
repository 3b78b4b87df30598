-- ===== src/Lib.antt =====
-- PulsePoll: polls are created, shared, voted on and watched while a WebSocket brings new results. The
-- browser client, the TypeScript code under frontend/src, as a whole; and the core of the server, the
-- Go code under backend: accounts, polls, votes, and the hub that sends new results to browsers.
--
-- How the program fits together. App.tsx shows a page for a path, behind two guards that read the
-- session of context/AuthContext.tsx. A page loads its data by services/poll.ts and services/auth.ts,
-- which send requests by services/api.ts with the token of the browser's storage. The three pages
-- that show results follow a poll by hooks/useRealtimePoll.ts and draw components/results. On the
-- server a controller calls a service, which calls the databases; a vote that is counted is published,
-- and the hub hands its event to the connections of the poll, where the hook reads it.
--
-- How code becomes definitions. A component is a record of its states; a handler is a function from
-- states to states and a list of effects (Effects): calls, toasts, navigation. An `async` handler is
-- cut at its `await`: the first half ends with the call, and a second function, named `..._settled`,
-- takes the answer, a value or a failure, with `catch` and `finally` written out. Each page has a type
-- `Action` of what can happen to it and a function `step` for the whole page, so that answers can come
-- in any order. `render` builds the elements of the JSX as a `View` (Ui), with the action that each
-- event sends. `offers` tells which actions a user can send by a click, through `onClick`, given what
-- is disabled and which dialogs are closed; it does not read `onChange`, `onSubmit` and `onOpenChange`.
-- Ui.Submits reads forms, and Ui.Controls lists the inputs and the `onClick` handlers of a view.
--
-- Which file models which part, with paths below frontend/src:
--   Common          strings, numbers, lists and tests of JavaScript that the code uses
--   Ui              views, what they offer (Offers), submit (Submits) and let users do (Controls)
--   Effects         the effects of handlers
--   Services.Model  the types of services/auth.ts and services/poll.ts
--   Services.Storage  localStorage, as a list of pairs
--   Services.Api    request and api of services/api.ts (`build`, `receive`)
--   Services.Auth   authService of services/auth.ts
--   Services.Poll   pollService of services/poll.ts
--   Utils           utils/constants.ts and utils/helpers.ts: Constants, Token, Percent and Browser
--   Realtime        hooks/useRealtimePoll.ts: connect, its four handlers, the timeout, the effects
--   Realtime.Spec   the promise of the hook as a machine of five stages, without sockets and timers
--   UsePoll         hooks/usePoll.ts
--   AuthContext     AuthProvider of context/AuthContext.tsx; Provider is its value, and useAuth
--   Routes          ProtectedLayout, PublicAuthLayout and App of App.tsx
--   Components      Status, Chart, Dialogs, PollCard and Layout: components/polls, results, layout
--   Components.Primitives  the wrappers of components/ui over Radix, lib/utils.ts, PageContainer
--   Pages           a module for each file of pages; Live is what the pages with results share
--   Client          the routes, the session, the sign-in forms and the logouts together
--   Examples        runs, tests, and the theorems at concrete inputs
-- and of the server, with paths below backend/:
--   Server.Model    models, the errors of services, utils/response.go
--   Server.Text     strings.TrimSpace and len, as the validators use them
--   Server.Stores   what the code of votes assumes of MongoDB and Redis
--   Server.Votes    services/vote_service.go and repositories/vote_repository.go
--   Server.Casting  validators/vote_validator.go and controllers/vote_controller.go
--   Server.Route    the route of a vote behind AuthRequired, in routes/routes.go
--   Server.Accounts  auth_service.go, middleware/auth.go, utils/jwt.go and controllers/auth_controller.go
--   Server.Polls    poll_service.go, poll_repository.go, poll_controller.go, and publicResults of routes.go
--   Server.Sharing  FindByShareCode, GetByShareCode and GetPublic of the same files
--   Server.Hub      websocket/hub.go, with ServeWS of manager.go and the handler of cmd/server/main.go
--   Server.Feed     WritePump of websocket/client.go, and the hook that reads what it writes
-- The child modules of a component hold its proofs and are named for what they prove.
--
-- Requests in flight. Pages.Requests states what a page with a busy flag owes: a view that lets a user
-- start the request only while the page is idle, and laws for starting, answering and the rest. The
-- pages of Login, Signup, CreatePoll and the dashboard fill it in, and ManagePoll twice, for its closing
-- and its deletion; Ui.Submits says when a browser submits a form.
--
-- The client (Client). An action of a form, an answer, a logout, a visit or a redirect is followed by a
-- render, which mounts and unmounts the two forms. A handler whose page was left while it awaited its
-- answer goes on: its toasts and its navigation happen, but it sets no state, also when the form has
-- been mounted anew; so the calls of forms that were left are counted apart. BrowserRouter renders a
-- navigation as a transition, after the states that the handler sets: `arrive` has the redirect that
-- these can show first. Routes match letters of either case. How react-router reads a path that a
-- handler navigates to is the parameter `Router` (Routes.Paths): `/` has no segments, and segments that
-- are joined by `/` are read back.
--
-- The hook (Realtime). The state holds the React states and refs, and the browser's side: the sockets
-- that can still deliver events, the pending timers, and a counter for identities. An event names the
-- socket or the timer that sends it; one that is closed or cleared sends nothing. A run is any list of
-- events, so every interleaving of openings, messages, closings, timeouts, changes of the poll and the
-- unmount is covered.
--
-- The server. A function of a service takes the databases and returns its result with the databases
-- after it; `Faults` says which of its calls of a database fail. What other code does is an interface:
-- `Collection`, the votes in MongoDB with the unique index on poll and token, and `Hashes`, the counters
-- in Redis with HINCRBY (Server.Stores); `Users`, the accounts in MongoDB, `Passwords`, which is bcrypt,
-- and `Tokens`, signed tokens (Server.Accounts); `Ids`, the hexadecimal text of object ids; `Wire`, the
-- JSON on a connection. `bson_time` is what MongoDB gives back of a time, to the millisecond in UTC.
-- Examples.Databases and Examples.Accounts have a concrete instance of each. The polls in MongoDB are a
-- list. `authorize` (Server.Accounts) is AuthRequired in front of a handler; Server.Route has it in front
-- of that of a vote. Server.Votes.Flights lets calls of `Cast` interleave between their calls of the
-- databases. The hub (Server.Hub) is a step relation: `Run`, the handlers that fill its channels,
-- and the pumps that empty the clients' channels take turns in any order; the channels have the
-- capacities of the code, 256 for a client, for `register` and for `unregister`, and 1024 for
-- `broadcast`, and a send to a full one is no turn.
--
-- Bounds and fuel. A count is a natural number below 2 ^ 53, where JavaScript's numbers are exact. A
-- quotient is rounded to a double in Utils.Percent; the search for its scale has 53 + q steps of fuel
-- for a divisor q. A decimal has n + 1 steps for the number n, which has fewer digits.
--
-- A view names the components of components/ui as elements. `expand` (Components.Primitives.Expand)
-- replaces each by what its wrapper renders, with Radix components and HTML tags as elements; the
-- functions of clsx, tailwind-merge and class-variance-authority are the parameter `Classes`.
--
-- StrictMode of main.tsx runs effects twice in development. Realtime.Strict has this for the hook; the
-- rest is modelled as it is in production.
--
-- Not modelled. The rest of main.tsx, the build files, the pages' fixed class names, refs, display names
-- and console output.
-- React, react-router, sonner, the QR code and the browser are not code of the repository: their
-- answers are actions and arguments (the random bytes of the voter token, the clock, the hour, the
-- format of dates, the origin, the environment's addresses). In the modules of the client the server's
-- answers are arbitrary values of the types `Outcome` and `Result`. Of the server: the
-- validators of accounts and of new polls, configuration, CORS, the Pub/Sub connection, lookups that
-- only read, the polls' `updatedAt`, and logs.
pub mod Common
pub mod Ui
pub mod Server
pub mod Services
pub mod Utils
pub mod Realtime
pub mod Effects
pub mod Components
pub mod AuthContext
pub mod Routes
pub mod Client
pub mod Pages
pub mod UsePoll
pub mod Examples
