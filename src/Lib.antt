-- ===== src/Lib.antt =====
-- ExQServe: a server that answers OpenAI and Anthropic requests with a local exllamav3 model. A
-- request is validated into a canonical one, admitted by request control, rendered by the model's
-- template, run by the runtime, and its tokens are parsed into generation events. Tool calls in
-- them pass a gate that validates the batch, and one terminal decision ends the request. Responses
-- that a client may continue are kept in a byte-bounded store.
--
-- The files, under exqserve/ of the sources:
-- - Store and its children: state/store.py. `Store` is the three dictionaries and the byte count of
--   `InMemoryResponseStore`; each method is a function of the store and the time of the call, and
--   `Store.Calls.run` runs any list of calls, as the lock makes each call one step. An
--   `OrderedDict` is an association list in its order (Dict).
-- - Agent and its children: agent/tools.py and agent/validation.py. JSON parsing and schema
--   validation are the record `Json`, a parameter.
-- - ToolBatch and its children: serving/tool_batch.py, `Gate` being the state of
--   `ToolCallBatchGate` and `feed` one call of a method.
-- - Terminal and its children: serving/terminal.py. `record_one` is one call of a recording method
--   and `resolve` the decision.
-- - VisionCache and its children: runtime/vision_cache.py. `commit_request` is the commit of one
--   request, under the guard of its cancellation, and `VisionCache.Invariant.run` runs any calls.
-- - Recovery and its children: serving/recovery.py. `Recovery.Loop.run` is `_run` of
--   `RecoveringServingSession` over a list of attempts, which must be one longer than the extra
--   attempts that are still allowed; an attempt carries what the others do in the waits of the loop,
--   the calls of `cancel` among it. `stream_attempt` is the loop over the events of one attempt.
-- - Control and its children: control/request.py. `Control.Controller.Methods.step` is one section
--   under the lock of `RequestController`, and `Control.Session.call` one call of a method of
--   `ControlledSession`; leases and sessions are handles into a heap.
-- - ModelManager and its children: server/model_manager.py. `ModelManager.World.step` is one section
--   under the manager's lock, or the answer of what a transition waits for.
-- - ResponseSession and its children: state/session.py, over `Store.Methods.put`; `read` is a
--   caller's reading of events.
-- - Preprocessing and its children: serving/preprocessing.py, with `step` for each part of
--   `RendererLanePool.run` between its awaits: its cancellation, the worker's end and the call's
--   resumption are steps of their own.
-- - Guarantees and its children: serving/guarantees.py; the factory of tool constraints is a
--   parameter.
-- - Core: core/errors.py, core/items.py, core/events.py and core/generation_guarantees.py.
-- - Base, Dict and Dict/Weight: shared names, dictionaries and sums over them.
--
-- Fuel: the walk over a chain of parents and the eviction loop take as fuel the number of records,
-- plus one for the walk; the walk sees each record at most once and the loop removes one at each
-- turn. The walk over a subtree takes the number of edges to children.
--
-- Not modelled: checks of argument types, which the types of the model carry; messages of
-- validation issues; logging, threads and HTTP; the runtime's packages.
pub mod Base
pub mod Dict
pub mod Store
pub mod Core
pub mod Agent
pub mod ToolBatch
pub mod Terminal
pub mod VisionCache
pub mod Recovery
pub mod Control
pub mod ModelManager
pub mod ResponseSession
pub mod Preprocessing
pub mod Guarantees
