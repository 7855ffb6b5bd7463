-- ===== src/MsgFile.antt =====
-- Messages as they stand in a file: lib/src/ToolsMsgFileMgr.cpp.
pub mod Hex
pub mod Entry
pub mod Create
pub mod Reload
pub mod Replay
