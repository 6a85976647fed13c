-- ===== src/Lib.antt =====
-- A library on AILEE-Finance-Unified-Runtime: the decision engine of a trading runtime and the
-- parts around it, with the theorems that bound what they may do.
--
-- The program. `AILLEEngine` (aille.hpp) takes the signals of several models, screens them, forms a
-- consensus and returns a position in [-1, 1]; what it accepts goes into a ring that later rounds
-- fall back on. Around it stand advisories that scale or deny execution, the stages that turn
-- advisories into the allocations of a portfolio, a governor of sales, a ring buffer that carries
-- frames of market data (extensions/aille_wnfs.hpp), and plugins that send orders.
--
-- The files.
--   * Prelude: shared names, lists and integers over the native numbers, and the view of a ring.
--   * Float: the operations on floating-point numbers that the code uses, as an interface, with the
--     laws of IEEE 754 that the proofs use as a record of hypotheses. Float/Fixed is a value of
--     both, fixed-point numbers with a NaN, at which every definition can be run.
--   * Engine: the data of aille.hpp. Engine/Config is `validateConfig`, Engine/Fallback the ring of
--     accepted decisions with `setConfig` and `reset`, Engine/Consensus the safety layer,
--     `checkConsensusFast` and `smoothPosition`, Engine/Decide is `makeDecision`. The engine's state
--     is the record `Engine`: the configuration, the two buffers, the head and the count. A call
--     returns the decision and the engine after it. Engine/Reach is the engine over its life.
--   * Runtime: the supervisor of a cycle (extensions/aille_unified_runtime.cpp), its checks in
--     Runtime/Intake and its stages in Runtime/Unified: a function of the configuration, the
--     evidence of the other layers, the clock's reading, the state and the metrics; and its clock
--     (extensions/aille_sync_adapter.cpp), Runtime/Sync with the protocol and Runtime/Standalone
--     without it.
--   * Governance: Governance/Meta is the lock of extensions/aille_meta_governance.cpp,
--     Governance/Proposals and Governance/Reconcile the ladder of
--     extensions/aille_governor_reconciliation.cpp.
--   * Portfolio: the stages over the assets, each a function of its containers that returns new
--     ones or `none`. Portfolio/Arbitration is `arbitrate` (extensions/aille_arbitration.cpp),
--     Portfolio/Constraints `apply_portfolio_constraints` (aille_portfolio_constraints.cpp) with
--     the clusters of correlated assets in Constraints/Clusters, Portfolio/Temporal
--     `enforce_temporal_consistency` (aille_temporal_consistency.cpp), Portfolio/Stress
--     `apply_stress_regime_override` (aille_stress_regime_override.cpp), and Portfolio/Assets what
--     they share, with aille_validation.hpp. A container is the list of its first `count` entries;
--     the traces hold 64 steps at most, as in the code.
--   * Sell: `evaluateSell` of src/ailee_finance_governor.cpp as it is built without Python, with
--     the consensus of the price feeds in Sell/Consensus.
--   * Pulse: the measuring structs of extensions/v7_2_pipeline.cpp and v7_3_pipeline.cpp.
--   * Execution: the routing of decisions to orders, ailee_plugins/IExecutionProvider.hpp.
--   * Broker: Broker/Journal is the durable store of reservations
--     (ailee_plugins/detail/intent_journal.hpp) with its replay in Broker/Journal/Replay,
--     Broker/Json the reader of answers (ailee_plugins/detail/broker_json.hpp), and Broker/Alpaca
--     the plugin over both (ailee_plugins/plugins/execution/alpaca/AlpacaExecution.cpp): its checks
--     in Checks, its destination in Destination, its construction in Start, its other requests in
--     Account. What the disk does at each write and what the network answers are arguments of a
--     call.
--   * Audit: the chained records of aille_audit.cpp, with its SHA-256 in Audit/Sha256. Whether a
--     write is synchronised, only written or cut off is an argument of a call; the file is its
--     whole records and the number of bytes that are left behind them.
--   * Wnfs/Channel: `WNFSChannel`, each call run whole, against the bounded queue of
--     Wnfs/Channel/Queue; Wnfs/Channel/Threads is `push_frame` and `pop_frame` of two threads as
--     a relation of single steps. Wnfs/Stream is the health of a stream of frames
--     (extensions/aille_wnfs.cpp).
--
-- Conventions. `float`, `double` and `long double` are types with the same interface and
-- pairs of conversions between them. A C `int` is an integer; `size_t` is a natural number with the wrap of
-- 64 bits written out where the code can reach it. A null pointer is `none`, an exception is
-- `none` in place of the new state. `std::tanh`, `std::nth_element`, `std::fmod`, `std::sqrt` and
-- the sine and cosine are parameters, of which only the documented absence of NaN from `tanh` is
-- assumed. Texts are their bytes where the code looks into them (Prelude/Bytes). The texts of
-- numbers and OpenSSL's SHA-256 are parameters; where a theorem says so, a hash has 32 bytes, and
-- the text of a finite `double` with 17 digits is not empty, holds no tab or newline and is read
-- back as that number. Loops are structural recursion on lists, but for two: the
-- reader of answers runs on the length of what is left, the padding of the hash on 64 rounds; both
-- are enough.
--
-- Not modelled: the owner, mode and links of the journals' files, the CSV export and the report
-- of the audit logger and the plugin's reading of the environment; the advisories of the asset
-- classes, the membrane and the other pipelines, the network and file gateways, the other
-- plugins' input and output, the third-party HTTP library, and the Python, JavaScript and
-- hardware code, with the branch of `evaluateSell` that calls Python. The clock is an argument,
-- the mutex is not modelled: each call is run whole, but for the two threads of the ring, where
-- a load of the other thread's counter may be old and what was stored before the value that it
-- gives is seen, as release and acquire promise.
pub mod Prelude
pub mod Float
pub mod Wnfs
pub mod Engine
pub mod Runtime
pub mod Governance
pub mod Portfolio
pub mod Sell
pub mod Pulse
pub mod Execution
pub mod Broker
pub mod Audit
