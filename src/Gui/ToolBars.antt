-- ===== src/Gui/ToolBars.antt =====
-- The tool bars over the two message lists: app/cc_view/src/widget/RecvAreaToolBar.cpp and
-- SendAreaToolBar.cpp with their headers. A bar keeps what the signals of the application's manager
-- last reported and enables its buttons by it; icons, tooltips and shortcuts are left out.
pub mod Recv
pub mod Send
pub mod Cases
pub mod Following
pub mod Reports
pub mod Clicking
pub mod Receiving
pub mod Slots
pub mod Deleting
pub mod Sending
pub mod Moving
pub mod Steps
pub mod Buttons
use cc_tools_qt.Base.{Bool, true, false}
use cc_tools_qt.Gui.{SendState, ActivityState}

abbrev pub is_active : ActivityState → Bool
is_active ActivityState.active = true
is_active ActivityState.inactive = false
is_active ActivityState.clear = false

abbrev pub is_idle : SendState → Bool
is_idle SendState.idle = true
is_idle SendState.sending_single = false
is_idle SendState.sending_all = false
