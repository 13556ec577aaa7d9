-- ===== src/Lib.antt =====
-- das-multi-device: a service that manages the backup devices of WebAuthn accounts on CKB.
--
-- A master device enables backup by a key-list cell on the chain, and adds and deletes backup devices
-- by transactions that replace the list in the cell. The HTTP handlers build these transactions, cache
-- them until they are signed, send them and write a pending row. The block parser follows the chain and
-- confirms the pending rows that it meets; a timer rejects those that were lost.
--
-- The files, and the code that each models:
--   Prelude, Outcome       shared names, lists, 64-bit arithmetic; Go's (value, error) results over a state.
--                          `Exec S E A` is code that changes an S, and keeps what it wrote when it fails.
--   Dao, Dao/*             tables/*.go and dao/*.go: rows, and each statement that a component runs.
--   Cache                  cache/*.go: the lock, the limits and the cache of transactions to sign. Cache/Lock
--                          takes requests that share a lock, one step of one of them at a time.
--   BlockParser            block_parser/*.go: parserSubMode, checkFork, parserConcurrencyMode, the loop of
--                          Run, parsingBlockData and ActionUpdateKeylist. Its children prove what a round
--                          does: Moves (all branches), Linked, Recovery, Concurrency, Tip, Pruning, Confirms,
--                          CatchUp (the loop on a healthy chain), ShortChain (on one below confirm_num),
--                          Restart (a new parser over an old database). Versions is
--                          checkContractVersion.
--   Timer                  timer/rejected.go: checkRejected; internal/internal.go.
--   Api                    http_api.ApiResp and the ways a handler answers.
--   KeyList                http_server/handle/authorize.go: buildUpdateAuthorizeTx. KeyList/Devices views the
--                          list as a set of devices.
--   Service                what the handlers share: their state, and what das-lib and the node answer.
--   KeyListCell            the same file: checkCanBeCreated, createKeyListCfgCell, buildCreateKeyListCfgTx.
--                          Its children are about the lock, the capacities and the fees.
--   Authorize              the same file: doAuthorize, buildWebauthnTx.
--   AuthorizeInfo          the same file: doAuthorizeInfo.
--   TxAction               tables/t_transaction_info.go: FormatTxAction and FormatActionType.
--   Transaction            http_server/handle/transaction.go: doTransactionSend, doTransactionStatus.
--   OldCid                 http_server/handle/upgradeCid.go: doCidInfo, doQueryCid, doAddTestCid, doCoverCid.
--   CidNotes               http_server/handle/cid_info.go: doAddCidInfo.
--   MasterAddr             http_server/handle/master_addr.go.
--   Ecdsa                  http_server/handle/ecdsa.go: doEcrecover, doVerifyWebauthnSign.
--   WebRtc                 http_server/handle/webrtc_websocket.go: the relay between devices. WebRtc/Sections
--                          takes what each connection does under the lock as one step.
--   Handle                 http_server/handle/handle.go, common.go: checkSystemUpgrade, Pagination, SignKey.
--   Endpoints              http_server/handle/*.go: the method of each endpoint, which binds the request,
--                          runs its handler and writes the response. Effects in the modules of the handlers,
--                          and Router/Frame, say what each may change.
--   Router                 http_server/router.go, http_server/api_code/monitor.go: the routes, and what
--                          DoMonitorLog observes of a request.
--   Metrics                prometheus/prometheus.go, notify/notify.go: how the collectors are made, one step
--                          of one call at a time, and which alerts are counted. Metrics/Push is Run.
--   Notify, Tool           notify/*.go: the messages to Lark and Discord; tool/time.go.
--   Lifecycle              a transaction from doTransactionSend over the parser to doTransactionStatus;
--                          Lifecycle/Backup begins at doAuthorize, Lifecycle/Listing ends at doAuthorizeInfo.
--   History                the database under requests, rounds of the parser and runs of the timer, in any
--                          order; Rows in the modules of these and Dao/Pendings/Evolves say what each makes
--                          of the pending rows.
--   Config, Startup        config/config.go, cmd/main.go, dao/dao.go, http_server/http_server.go: runServer up
--                          to the parts of its mode. Startup/Restart is a service that starts again.
--   Shutdown               the loops of the parser and of the timer, one pass at a time, and the wait for
--                          them at the exit.
--   Examples, */Examples   the theorems and the definitions at concrete inputs.
--
-- Functions keep their Go names in snake case. uint64 arithmetic wraps around (`add64`, `sub64`, `mul64`);
-- other numbers are natural numbers. What the node, das-lib, Go's cryptography and the clock answer is a
-- record that a definition takes (`Env`, `TxEnv`, `SendEnv`, `Devices`, `Codec`, `Crypto`, `Verifier`,
-- `Answers`), so a theorem holds for every answer unless it states a condition. MySQL and redis may fail any statement:
-- the state holds a list of faults to come. The loop of Run has no end, so a step of the model is one
-- round of it, with no fuel; every other loop is over a list or a count.
--
-- Not modelled: JSON, logging, the middleware of gin, its internal engine, the pushes to the gateway, the
-- pings of a WebRTC connection and its static page, the Shutdown of the http servers, which nothing calls,
-- and types that nothing uses. Of the tasks of das-lib that run beside the service the start-up has what
-- they add to the wait group, a number for each; the exit waits for the loops of this repository alone. A
-- failed write of the file of old cids leaves any entries in it; a file that no longer parses is left out.
-- The outputs of a built transaction are the ones of its parameters by reference, so a new key-list cell is
-- returned as it was sent.
-- The database compares strings exactly, where MySQL's collation may ignore case. A transaction of the
-- database whose commit is reported as failed has changed nothing. Requests are interleaved where the lock,
-- the file of old cids, the collectors, the sockets and the pending rows are taken step by step; elsewhere a
-- handler runs as one step. A row that is not found is `none`, where the code reads a zero struct and tests
-- its id.
pub mod Prelude
pub mod Outcome
pub mod Dao
pub mod BlockParser
pub mod Api
pub mod Cache
pub mod Timer
pub mod KeyList
pub mod Service
pub mod KeyListCell
pub mod Authorize
pub mod TxAction
pub mod Transaction
pub mod OldCid
pub mod AuthorizeInfo
pub mod CidNotes
pub mod MasterAddr
pub mod WebRtc
pub mod Ecdsa
pub mod Handle
pub mod Endpoints
pub mod Router
pub mod Lifecycle
pub mod History
pub mod Config
pub mod Metrics
pub mod Notify
pub mod Tool
pub mod Startup
pub mod Shutdown
pub mod Examples
