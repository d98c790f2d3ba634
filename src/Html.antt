-- ===== src/Html.antt =====
-- html-sanitize-core/src/lib.rs: the sanitizer for email HTML.
pub mod Link
pub mod ZeroWidth
pub mod Stream
pub mod Rewriting
pub mod Elements
pub mod Abi
