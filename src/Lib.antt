-- ===== src/Lib.antt =====
-- Verification of hyperfastapi's Rust extension, crates/fr-pyiface: a FastAPI-compatible framework
-- whose route table, request dispatch, parameter extraction and JSON encoding are in Rust and whose
-- handlers are Python callables.
--
-- The parts, and the files that model them (paths from the repository's root):
--   Path          crates/fr-pyiface/src/app.rs, match_path_template. Path.Spec has the relation
--                 `Matches` on segments and the filling of a template; Path.Matching and
--                 Path.Filling relate the code to them.
--   Value         Python objects, by the branches that the Rust code tells apart.
--   Json          crates/fr-pyiface/src/json_fast.rs, the whole encoder. Json.Escape and Json.Render
--                 hold unbuffered references, Json.Literal a reader of string literals.
--   Route         app.rs: Route, DecoratorOpts, the parameter plan; Route.Decorator has
--                 RouteDecorator and its `__call__`, Route.Options the decorators' arguments.
--   App, Router   app.rs: FastAPI and APIRouter, their constructors, method decorators (App.Methods,
--                 Router.Methods), api_route, add_api_route and the two include_router methods.
--                 Router.Merging and Router.Nesting are about those, Registration about decorators.
--                 App.Openapi is `openapi`, App.Summary `_routes_summary` and the `routes` getter,
--                 App.Security `extract_route_security`, App.Hooks the other getters and the methods
--                 that keep nothing. App.Evolution is a step relation of all registrations.
--   Params        app.rs: ValidationErrorEntry (Errors), str::parse::<i64> (Parse), cast_scalar
--                 (Cast), run_validators (Validate), extract_one_param (Extract) and the unused
--                 cast_path_param (PathCast). Typed, Extract.Values, Extract.Typed,
--                 Body.Typed and Dispatch.Arguments.Typed say which values an entry may have.
--   Body          app.rs: extract_body_params and the error dicts that it builds.
--   Dispatch      app.rs, FastAPI::_dispatch and _dispatch_native: the schema and documentation pages
--                 (Docs), the choice of a route (Select), what is parsed of a request (Request), the
--                 keyword arguments or the 422 answer (Arguments), the trivial fast path (Fast), the
--                 dependencies, the handler's call and the clean-up after it (Handle), what becomes of
--                 the handler's value (Respond), and all of these composed (Whole). Whole.Stages and
--                 Handle.Laws specify the traces that a request may leave, Arguments.Placeholders and
--                 Whole.Delivery follow the values in a path to the handler, and Whole.Reset is about
--                 the state of `_bg`.
--   Server        crates/fr-pyiface/src/server.rs: the snapshot of trivial routes and its lookup,
--                 dispatch_trivial (Trivial), try_drive_async (Drive), the start of run_native and
--                 load_tls_config (Config), handle_request, python_dispatch and the answer to one HTTP/3
--                 request (Native), the service function and the tasks of a connection and of an HTTP/3
--                 request (Tasks), and the two listeners with all their tasks (Net), in every order of
--                 events. Native.Delivery goes from a request to the handler and back.
--   Websocket     crates/fr-pyiface/src/ws.rs: the upgrade test and the handshake (Handshake), and the
--                 reader task, the writer task and the handler of a connection as a step relation
--                 (Connection), with what every order of their steps keeps (Order, Outbound) and how a
--                 connection ends (Ending). The handler's side is NativeWebSocket of
--                 python/hyperfastapi/_ws.py.
--   Markers       crates/fr-pyiface/src/params.rs: the parameter markers.
--   Extension     crates/fr-pyiface/src/lib.rs: the names of the module `_core`, and the references that
--                 app.rs and server.rs import once.
--   Cpu, Bench    crates/fr-json/src/cpu.rs, the flags of the processor's features, and
--                 crates/ws-bench/src/main.rs, the benchmark's options, tasks, totals and report.
--   Samples, and the Tests beside the parts   concrete instances, and the theorems applied to them.
--
-- How they interact: a decorator (Registration) pushes a Route; include_router copies the routes of
-- a router into a table; _dispatch selects a route of the table with match_path_template, extracts
-- the arguments of its plan (Params, then Body), has the dependencies resolved, calls the handler and
-- encodes its value (Json). The native server hands an upgrade request to Websocket, and answers
-- others from its snapshot before it asks _dispatch.
--
-- State is passed explicitly. A FastAPI or APIRouter object is a record; each of its mutexes is held
-- within one call, so an operation is a function from the old record to the new one. `?` on a
-- PyResult or a Result is `none` or `err`. Texts are lists of UTF-8 bytes. Integers of Python are
-- unbounded, and the range of i64 is written out where the code parses or extracts one.
--
-- What a request makes Python do is a list of events beside the answer. A WebSocket connection is a
-- record on which the tasks take turns in any order; a turn is one pass of a loop, and what is read,
-- received, sent and written is logged in it. The server is a function of a sequence of events, which
-- interleaves what its listeners, its connections and its HTTP/3 requests meet; a task that does not
-- wait for an event is not changed by it.
--
-- Loops are structural recursions on what is left of a list or on a number of turns. Only the printing
-- of a number in decimal takes fuel, the number and one more, which is enough since each turn divides
-- it by ten. A Python dict with string keys is an association list in insertion order.
--
-- Parameters, since their code is not Rust or not in the repository: `Formats` (itoa, ryu, Python's
-- str), `Reflection` (inspect, typing, and compile_route_plan of
-- python/hyperfastapi/_routing.py), `Coercions` (f64, uuid, re, uploaded files), `Validation`
-- (pydantic and json.loads), `Rendering` (response models and response classes), `Framework`
-- (expand_route_level_dependencies, resolve_dependencies and call_with_async_handling of
-- python/hyperfastapi/_routing.py), `Handshaking` and `Library` (hyper's headers, SHA-1, Base64),
-- `Tls` (files and rustls), `Binding` (addresses and QUIC), `Coroutines` (Python's coroutines),
-- `to_lowercase` (Unicode), `Parsers` (urllib.parse.parse_qs, and parse_form_body of
-- python/hyperfastapi/_routing.py) and `Runtime` (calls of handlers, Starlette responses,
-- json.dumps). Two assumptions are made on them, where a theorem names them: `Reporting`, that a
-- pydantic ValidationError lists at least one error, and `Counting`, which of Python's calls start the
-- body of a coroutine function.
--
-- Not modelled: the sockets and the tokio runtime of server.rs and ws.rs, which are third-party code
-- and appear as events; whether a peer receives what was sent to it; the failure of a push to the
-- handler's queue, which the code ignores; PyO3's classes; the connection and the clock of ws-bench;
-- and the Python layer under python/hyperfastapi beside the two methods of NativeWebSocket. Python's
-- functions are functions of their arguments, so what handlers share among them is not modelled.

pub mod App
pub mod Bench
pub mod Body
pub mod Cpu
pub mod Dispatch
pub mod Extension
pub mod Json
pub mod Markers
pub mod Params
pub mod Path
pub mod Prelude
pub mod Registration
pub mod Route
pub mod Router
pub mod Samples
pub mod Server
pub mod Tests
pub mod Value
pub mod Websocket
