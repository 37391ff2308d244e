-- ===== src/Tests.antt =====
-- Runs of the definitions on concrete data, and the theorems at concrete inputs.
mod EncodingTests
mod PacketsTests
mod ServerTests
mod LifecycleTests
mod AdmissionTests
mod ActionTests
mod DeviceTests
