-- ===== src/Gui/Dialogs.antt =====
-- The slots of the application's manager that hand the selected message to a dialog, and the report of
-- a comment that a dialog has changed (app/cc_view/src/GuiAppMgr.cpp). A message is `none` for a null
-- pointer.
use cc_tools_qt.Base.{ℕ, ltb}
use cc_tools_qt.Gui.{Window, Signal, emit}

module _ {W : Type 0} where
  -- `recvCommentClicked` and `sendCommentClicked`.
  abbrev pub comment_clicked : Window W → Window W
  comment_clicked s = emit (Signal.msg_comment_dialog s.clicked_msg) s

  abbrev pub send_edit_clicked : Window W → Window W
  send_edit_clicked s = emit (Signal.update_send_msg_dialog s.clicked_msg) s

  abbrev pub send_load_clicked : Window W → Window W
  send_load_clicked s = emit (Signal.load_send_msgs_dialog (ltb 0 s.send_list_count)) s

  abbrev pub msg_comment_updated : ℕ → Window W → Window W
  msg_comment_updated m s = emit (Signal.msg_comment_updated m) s
