-- ===== src/Proton.antt =====
-- proton-core/src/lib.rs: the Proton Mail backend core.
pub mod Base64
pub mod Core
pub mod Auth
pub mod Events
pub mod Labels
pub mod Bodies
pub mod Dispatch
pub mod Abi
pub mod Threads
pub mod Mock
pub mod KeyChain
pub mod Runtime
