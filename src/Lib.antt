-- ===== src/Lib.antt =====
-- ClioT runs integration tests ("flows") against a Clio server over web sockets.
--
-- A flow is a directory with a script (script.yaml) of steps: a request is a template that is rendered
-- and sent, a response is a template that gives the expectations of what the server sends back, a
-- subflow runs another flow, and a block repeats some steps. The scheduler runs all flows one after
-- another and records a verdict for each; a runner holds one borrowed connection while it goes
-- through the steps of its flow.
--
-- The files, with the sources that they model:
--   Validation: Validator (src/validation/validator.cpp), the comparison of a response with the
--     expectations. Validation.Spec says independently what it is to find. Validation.Atoi is the `atoi` of
--     the "$array=" filter, Validation.Decimal the numbers in decimal that it is to read.
--   Util.AsyncQueue: the bounded queue of src/util/async_queue.hpp. A method is one critical section;
--     where it waits it has no result. Util.AsyncQueue.History has sequences of calls that have
--     returned, Util.AsyncQueue.Threads the threads that sleep and are woken.
--   Reporting.Events: the events of src/reporting/events.hpp. Reporting.AnyEvent is the class of that name,
--     which no other code uses.
--   Reporting.Renderer: what is printed of an event (src/reporting/default_report_renderer.cpp,
--     src/reporting/report_engine.hpp), as the list of texts given to fmt::print.
--   Util.Uri: util::parse_uri (src/util/parse_uri.cpp). Util.Regex is what its pattern needs of std::regex,
--     with the backtracking search of std::regex_match; Util.Regex.Greedy is what this finds first.
--   Flow.Descriptors, Flow.Yaml: the script and its decoding (src/flow/descriptors.hpp, src/flow/impl).
--     Flow.Yaml.Documents is the format of scripts, independently of the code.
--   Flow.FilePath: what the program uses of std::filesystem::path.
--   Web.Connections: borrow, write, read and release of connections, and the end of the pool (src/web).
--   Web.Session: WebSocketSession with its handlers (src/web/web_socket_session.cpp) as a step relation:
--     a step is the completion of a pending operation or a call by a thread. Web.Session.Progress tells
--     from the completions alone how far a session is. Web.Connections takes from it only whether a
--     session connects in the end (`connects` of Host).
--   Web.Fetcher: the body of OnDemandFetcher::fetch (src/web/fetcher.cpp); its handler and its calls are
--     in Runner.Callbacks.
--   Runner.Callbacks, Runner.Templates: the functions that a template can call (src/runner.hpp) and
--     rendering with them.
--   Runner.Steps: the request and the response step (src/flow/step/request.hpp, response.hpp).
--   Runner.Flows: FlowRunner::run, Flow::load_from, and the subflow and block steps (src/runner.hpp,
--     src/flow/flow.hpp, src/flow/step/run_flow.hpp, src/flow/step/repeat_block.hpp).
--   Crawler: Crawler::crawl (src/crawler.hpp), with the order of its set. It is called once, so its sets
--     start empty. How a directory is listed is a parameter.
--   Scheduler: Scheduler::run (src/scheduler.hpp) and the handler of main (src/main.cpp). Scheduler.Log is
--     the order in which the reports of a run may come, and Runner.Flows.Failing the ways in which a flow can
--     fail, each a chain of steps through the scripts, after the reports that were made before.
--   Main: main (src/main.cpp), from the options to the exit code. What cxxopts makes of the arguments is
--     a parameter, and so is the nesting bound.
--
-- The code that changes state or throws is a function from a World (World.antt: the store, the
-- recorded events, the pool, the texts that the sessions were called to write, and a count of the
-- exchanges with the network) to an outcome and a World (Exec.antt); the World comes back beside an
-- exception too, so that handlers and destructors see what the body did. A failed `assert`, a wait
-- without end, and a nesting bound that was too small are outcomes of their own (`halts`).
--
-- The code that is not in the repository is a parameter: JSON values (Json.antt), and yaml-cpp, inja,
-- the file system and the network (Host.antt). An inja template is a script that reads the store and
-- calls the callbacks. Samples has concrete instances for the tests.
--
-- Bounds: the recursion of the validator and the decoding of a script are on bounds that the document
-- gives: each call goes to a part of it that is less deep. The nesting of subflows and blocks is on a
-- bound that the caller chooses, since a flow that runs itself recurs without end; when it is too small,
-- the outcome is `halts too_deep`. It is enough where it is no smaller than the ranks of the flows
-- (Runner.Flows.Ranks), a flow running flows of smaller ranks only.
--
-- Not modelled: the time stamps of events; the worker threads of the pool, which only run the handlers
-- of the sessions, and the order of these is left open; the printing of the usage and of the message
-- of an exception by main; the joining of these threads by the destructor of the pool; and the
-- dependency injection, which has no effect of its own. A write is modelled up to its start: when it
-- ends, and what is left of the text by then, is open. Reporting does not throw, though the dump of a
-- store with a text that is not UTF-8 would. A `{}` in a format string is put together with its text
-- directly. The characters of an address are Unicode code points. The numbers of `atoi` beyond `int`,
-- which C leaves undefined, are read as themselves. The buffers over which asynchronous writes run are
-- values.
pub mod Prelude
pub mod Json
pub mod Reporting
pub mod Validation
pub mod Samples
pub mod Util
pub mod Exec
pub mod Host
pub mod World
pub mod Web
pub mod Flow
pub mod Runner
pub mod Crawler
pub mod Main
pub mod Scheduler
