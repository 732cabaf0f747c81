-- ===== src/Lib.antt =====
-- RevertX: payments of an agent under a budget, and the compensation of what it paid.
--
-- The program is a proxy (proxy/mcp_proxy.py) between an agent and merchants, and processes behind it
-- (compensating_agent). The proxy checks a payment (authorization), reserves it from the workflow's
-- budget (db/client.py), charges a mock merchant or starts a real payout (razorpayx/client.py), and
-- writes a row of the ledger. When the budget refuses a payment, the proxy asks for the compensation
-- of the workflow: a graph (compensating_agent/graph.py) undoes the settled steps, the latest first,
-- and says who is to blame. A worker (compensating_agent/pending_payout_worker.py) looks again at the
-- payouts whose outcome is open.
--
-- Modules:
-- - Prelude, Int, Dict, Python, Json, Values: numbers, integers over the native numbers, tables by
--   key, exceptions as values with actions on a state, and untyped values with their conversions.
-- - Schemas: the records of proxy/schemas.py. System: the state that the processes share, which is
--   the database, the keys of Redis (state_log/redis_client.py), the queue and the mode switch.
-- - Db: the tables and queries of db/client.py; one module for each group of tables.
-- - Engine: engine/reconciliation.py, engine/fault_classifier.py, engine/policy_sanitizer.py,
--   engine/policy_extractor.py and engine/anomaly_detector.py with their services; `Relay` is the
--   queue between the extractor's thread and its loop. RefundMath: refund_math.py.
-- - Razorpayx: razorpayx/client.py, where `Client` is the polling, and razorpayx/provision.py.
-- - Merchants: mock_merchants/registry.py, and each of the mock merchants; `Shop` holds what they
--   share.
-- - Authorization: the wallet, the policy, the balance check and the pipeline of authorization;
--   `Wallet.Overlap` has payments of one agent whose checks overlap.
-- - Proxy: the handler of `/pay`. `Handler.pay` is the function `pay`; its parts are functions of
--   their own: `rate_limit`, `replay_or`, `reserve`, `mandate_exceeded`, `pay_by_payout`,
--   `charge_merchant` and `finish`, in the order of the handler. `Books` is about sequences of
--   requests, `Replay` and `Kept` about the stored answers, `Raised` about handlers that raise,
--   `Overlap` about requests that overlap. `Workflows` has the endpoints beside `/pay`, and
--   `Dashboard` those that the user interface reads. ResetWallet: reset_wallet.py.
-- - Agent: primary_agent, which is the catalog, the planner with its guardrails, and the agent that
--   pays a plan (`Procurement`) or three fixed payments (`Script`) through `Proxy.Pay.Handler.pay`;
--   `Launch` is its command line, and the endpoint of the proxy that starts it.
-- - Workers: `PendingPayout`, and `Saga`, which is compensating_agent/worker.py. Compensation: the
--   graph; each node has the name of its function, and `Graph.run` follows the edges of `build_graph`;
--   `AnomalyCheck` is the task that a report starts.
-- - Demo: demo_silent_break.py, and the evaluation of test_harness on labelled records.
-- - Examples: the theorems at concrete inputs.
--
-- What the code reads from elsewhere is a parameter: the answers of the merchants, of the payment
-- gateway, of the language models and of the graph library's runs with checkpoints, the regular
-- expressions, Python's parsing of JSON and floats, fresh ids, the time, and the switches of the
-- deployment. Amounts are integers in paise and percentages integers in hundredths, where the
-- code has floats; so rounding errors of floats are not modelled: on ties the code's results, and
-- its comparisons of two such results, can differ by a paisa. A ledger entry stands in its row as it
-- is, without the JSON between, and rows are in the order of insertion, where the code sorts by
-- the time of creation. Timestamps, logs, metrics counters and texts for human readers are left out,
-- and with them the prompts of the language models.
--
-- A run of the graph takes the bound of the graph library on visited nodes as fuel. A settled step is
-- at most five nodes, and four more begin and end a run. A poll has its number of attempts as fuel.
-- Every other function is by structural recursion.
--
-- Where requests overlap, the model interleaves what the property is about: the check of the wallet
-- and the record of the spend, or the lookup of a stored response and the payment. The rest of a
-- request, answered or raising, is one step, as if its queries were not interleaved with those of
-- others.
--
-- Not modelled: the inside of the graph library's checkpoints, the loops that connect the workers, the
-- user interface and the scripts that start processes. Transactions of the database are taken one
-- after the other, in the order in which the code starts them.
pub mod Prelude
pub mod Int
pub mod Dict
pub mod Python
pub mod Json
pub mod Values
pub mod Schemas
pub mod Engine
pub mod RefundMath
pub mod ResetWallet
pub mod Db
pub mod System
pub mod Razorpayx
pub mod Authorization
pub mod Merchants
pub mod Agent
pub mod Proxy
pub mod Demo
pub mod Workers
pub mod Compensation
pub mod Examples
