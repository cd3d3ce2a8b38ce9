-- ===== src/Lib.antt =====
-- node-proxybroker: a broker for HTTP proxies. Providers bring addresses of proxies; the validator
-- tests each one through the judge, a web service of its own that sees how anonymous a call over the
-- proxy is; the rotator hands tested proxies out in turn and keeps count of how they do; the proxy
-- server passes the requests of clients on over the proxies that the rotator hands out.
--
-- The parts, with the sources below src/ of the repository:
--   Prelude     shared names, Boolean tests, lists over the native numbers, texts, integers
--   Entities    entities/IpAddr.ts, IpAddrState.ts, IpRotate.ts, libs/specific/ProtocolType.ts
--   Http        libs/http/RequestHelper.ts: the head of a request taken apart and put together
--   Address     REGEX of libs/Constants.ts, `handle` of tasks/ProxyValidateTask.ts
--   Agent       libs/overrides/https_proxy_agent.ts: the CONNECT request, and the answer as its chunks
--               come; Numeric is the conversion of a text to a number
--   Server      Socket: libs/server/SocketHandle.ts; Target (the choice of a proxy), Handlers (what is
--               done around a connection), Proxy (a request over its attempts) and Handles (the list
--               of sockets), Replies (the answers to a request that failed), Setup (the options):
--               libs/server/ProxyServer.ts; HeaderTransform: libs/server/HttpHeaderTransform.ts
--   Judge       Level: LevelDetection.ts, Monitor: RequestResponseMonitor.ts, Results: JudgeResult.ts
--               and JudgeResults.ts, Request: JudgeRequest.ts, Service, Validation, Connection and
--               Selftest: Judge.ts, Messages: ReqResEvent.ts and `logToString`, of libs/judge, and
--               libs/specific/Messages.ts
--   Validator   libs/proxy/ProxyValidator.ts, whose queue is Work; Task: tasks/ProxyValidateTask.ts
--   Provider    libs/provider; Worker: tasks/ProxyFetchTask.ts; the loop of providers/proxy/ProxyListenDe.ts,
--               whose pages are read in Page; FreeLists: providers/proxy/FreeProxyListsCom.ts;
--               Scan: the matches of an expression in a page
--   Rotator     Pool, Selector, Log, Fetch, Trial, Waiting, Machine: libs/proxy/ProxyRotator.ts
--               and ProxyUsed.ts
--   Commands    commands/ProxyValidateCommand.ts (Addresses), commands/ProxyFetchCommand.ts (Fetch) and
--               libs/OutputHelper.ts (Output)
--   Statistics  libs/specific/storage/Statistics.ts
--   Broker      the server and the rotator together: a use of a proxy from `next` to `doLog`
--   Tests       the theorems at concrete inputs
-- A module's children hold its proofs, named for what they are about.
--
-- State is passed explicitly: a record for the fields of a class, a function for each method, and a
-- data type for what can happen to it where listeners react to events. A time is an argument. An
-- operation keeps the name of the method in antt's spelling: `onProxyRequest` is `on_proxy_request`.
-- An object that others point to is told apart by an id (`ref`). A text is a list of code units and
-- a buffer is read one byte to a unit; letters fold and spaces are trimmed on ASCII. An `await` is
-- where the environment speaks: what it answers is an argument, such as the attempts that a request
-- is served against in Server.Proxy. Nothing runs on fuel: the loops follow their lists, and a
-- request is served as far as its list of attempts goes.
--
-- Parameters stand for code of other packages: Exceptions.handle and DNS of @typexs, url.parse and
-- sockets of Node, _.orderBy of lodash, escapeRegExp of commons-config, the hash of an id, the save
-- of the storage and the dates as it reads them, the tasks of @typexs, JSON.stringify of an object.
-- Their hypotheses are named in the theorems that use them.
--
-- Not modelled: the wiring at startup, the controller, SQL and storage, the piping of streams, the
-- forms that scrape web pages, configuration, the format json, and how a message is filled in.
pub mod Prelude
pub mod Entities
pub mod Http
pub mod Address
pub mod Server
pub mod Judge
pub mod Validator
pub mod Provider
pub mod Rotator
pub mod Agent
pub mod Commands
pub mod Statistics
pub mod Broker
pub mod Tests
