-- ===== src/Lib.antt =====
-- charles_mcp, a server that reads Charles Proxy traffic and mocks it, verified in parts.
--
-- Charles sends the requests of the mocked hosts to a dispatcher, which takes the body off the
-- wire, looks for a route and for the rule that applies, and answers from a stored body or passes
-- the request on and patches the answer. Rules, routes and stored bodies are files. Beside that,
-- the live capture keeps what was recorded and hands it out page by page.
--
-- Files, and the code they model:
--   Json, JsonPatch     charles_mcp/mocks/json_patch.py. JSON values are the data type `Value`.
--     Pointer, Lookup   parse_pointer, pointers_may_alias, get_pointer, _selected_index
--     Edit              validate_patches, _set, _remove, apply_patches; a document is changed by
--                       building a new one, and an exception is a value of `Outcome`
--     Style, Dump       _Style, _write, dump_like
--     Warnings          type_change_warnings
--     Alias, Frame, SetGet, Checks, Faults, Roundtrip, Raises, Spelling: proofs
--   LiveState           charles_mcp/live_state.py. `Entries` numbers equal entries, `Manager` has
--                       the state of LiveCaptureManager, passed on explicitly; `Client` has the
--                       calls of charles_mcp/client.py that charles_mcp/services/live_capture.py
--                       makes, which is `Service`: `start_live`, `read_live` and `stop_live` change
--                       a state with the manager, the client, what reached httpx and the files
--   Rules               charles_mcp/mocks/rules.py, and the hosts and paths of
--                       charles_mcp/mocks/store.py
--     Names, Path, Glob hosts, paths, and the patterns over them
--     Model             the pydantic models with their validators
--     Match, Select     parse_body_document, rule_matches, select_rule
--     Disk, Store       RuleStore: a directory is a dictionary of files, the archive another
--     Routes            RouteConfig and the route table
--   Mocks               MockStore of charles_mcp/mocks/store.py: `Tree` has directories of files,
--                       `Store` the operations, on the tree of the hosts and that of the archive;
--                       `Scenarios` is charles_mcp/mocks/scenarios.py
--   Dispatcher          charles_mcp/mocks/dispatcher.py
--     Framing           _read_body and _read_chunked_body on the bytes of the connection
--     Headers, Bodies   the header lists, _patch_json
--     Wire, Flow        _DispatcherHandler: `dispatch` takes a request and the disk to the calls
--                       it makes to the upstream and to the reply, or to the exception that ends
--                       the connection without one
--   Traffic             queries over recorded and live traffic
--     Schema            charles_mcp/schemas/traffic.py, traffic_query.py and analysis.py
--     Raw               access to the raw entries, and the exceptions
--     Classify, Headers, Body
--                       charles_mcp/analyzers: resource_classifier.py, headers.py and body.py;
--                       `Body.Values` has the assignments, `Body.Scan` and `Body.Multipart` are
--                       the searches in a text and the parts
--     Normalize         charles_mcp/services/traffic_normalizer.py
--     Match, Grouping   traffic_analysis.py and traffic_grouping_service.py: match_entry is a list
--                       of checks, `Match.Views` has the summaries, details and statistics
--     Cache             traffic_cache.py, with the readings of the clock as arguments
--     Prepare           _prepare_entries of traffic_query_orchestrator.py; `State` has the caches
--                       and the counters, `Scan` is its loop, and a fault leaves the caches as the
--                       loop changed them
--     Query             the other calls of the orchestrator, traffic_stats_service.py and
--                       traffic_query_service.py; `Detail` is get_detail
--   Prelude             lists, dictionaries, text, order, sorting, exceptions, and
--                       actions on a state with the rules for them
--   Tests               runs at concrete data
--
-- Text is a list of code points and bytes are a list of numbers. What belongs to Python, pydantic
-- or httpx is a parameter: parsing of numbers and JSON, Unicode tables, URL splitting, dates, the
-- decoding of bodies, jmespath, the upstream. The services that read captures are an interface.
-- The hypotheses about a parameter are records with a name (IsPython, IsLower, WritesSizes) or
-- equations of the theorem. The texts of messages are constructors.
--
-- Loops are structural, but for reading chunks, where each round takes a byte at least: the fuel
-- is one more than the bytes that are left, and `out_of_fuel` is never returned; and but for the
-- eviction of cached scopes, where each round drops one and their number is the fuel.
--
-- Not modelled: the rule service and the editing of Charles's configuration, which stand above the
-- rules; throttling and the tools of Charles; the configuration; the history of recordings and the
-- purge; the tools that pass arguments on to the services; the reverse package, whose core is SQL;
-- threads, sockets, the clock and the log of the dispatcher; a crash in the middle of the writing of
-- a file; and make_rule_id, whose digest is a library's.
pub mod Prelude
pub mod Json
pub mod JsonPatch
pub mod LiveState
pub mod Rules
pub mod Mocks
pub mod Dispatcher
pub mod Traffic
pub mod Tests
