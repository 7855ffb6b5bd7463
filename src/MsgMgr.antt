-- ===== src/MsgMgr.antt =====
-- The message manager: lib/src/ToolsMsgMgrImpl.h and ToolsMsgMgrImpl.cpp. A pointer to a message is
-- the address of its object, and `none` where it may be null. A slot has the sender of its signal as
-- an argument. Asserts are those of a release build. `ToolsMsgMgr` only forwards.
pub mod Fields
pub mod Chain
pub mod Order
pub mod Control
pub mod Send
pub mod Receive
pub mod Delete
pub mod History
