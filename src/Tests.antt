-- ===== src/Tests.antt =====
-- The theorems at concrete inputs, and runs of the models on small inputs.
mod MergeTests
mod StoreTests
mod ReplayTests
mod EngineTests
mod ProcessorTests
mod ProtocolTests
mod PromptTests
mod BridgeTests
mod ResumeTests
mod LaunchTests
mod HookTests
