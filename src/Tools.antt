-- ===== src/Tools.antt =====
-- TinyCTX/tool_handling/handler.py: the registry of tools, the listing and the guarded call.
pub mod Values
pub mod Coerce
pub mod Registry
pub mod Listing
pub mod Execute
