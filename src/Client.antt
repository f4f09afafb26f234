-- ===== src/Client.antt =====
-- The client side of the SDK: how a caller gets the token that it presents, and what it wires.
pub mod Tokens
pub mod Credentials
pub mod Assertion
pub mod Sdk
pub mod Secret
