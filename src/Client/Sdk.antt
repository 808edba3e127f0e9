-- ===== src/Client/Sdk.antt =====
-- client/src/sdk_http.rs and its parts sdk_http/form.rs and sdk_http/response.rs: the primitives of
-- the SDK's login over HTTP.
pub mod Base
pub mod Form
pub mod Reply
pub mod Request
pub mod Calls
pub mod Sending
mod Tests
