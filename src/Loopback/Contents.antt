-- ===== src/Loopback/Contents.antt =====
-- What is received says what was sent (lib/src/ToolsMsgMgrImpl.cpp).
use cc_tools_qt.Base.{ℕ, ◌≡◌, ap, ◌∙◌, [], ◌∷◌}
use cc_tools_qt.Message.{Message, DataInfo}
use cc_tools_qt.Plugins.{Plugins}
use cc_tools_qt.Protocol.{Frame}
use cc_tools_qt.MsgMgr.Fields.{State}
use cc_tools_qt.MsgMgr.Receive.{receive_each, receive_data}
use cc_tools_qt.MsgMgr.Receive.Contents.{contents, KeepsContents, receive_one-contents}
use cc_tools_qt.MsgMgr.Receive.Listing.{read_from}

-- A frame reads from the bytes of a message that message, and no more.
pub record ReadsBack {W : Type 0} (f : Frame W) (m : Message) : Type 0 where
  pub decoded : Message
  pub reads :
      (d : DataInfo) (w : W) → d.bytes ≡ f.encode_framed m → (f.read_data d w).0 ≡ decoded ∷ []
  pub same : contents decoded ≡ contents m

module _ {W : Type 0} (p : Plugins W) where
  pub receive_data-contents :
      KeepsContents p
      → (r : ℕ) (d : DataInfo) (m : Message) (s : State W) → (read_from p r d s).0 ≡ m ∷ []
      → contents ((receive_data p r d s).objects s.next_object) ≡ contents m
  unfolding receive_data receive_each
  receive_data-contents keeps r d m s one =
      let s1 = record s { world = (read_from p r d s).1 } in
      ap (λ ms. contents ((receive_each p r d.timestamp ms s1).1.objects s.next_object)) one
      ∙ receive_one-contents p keeps r d.timestamp m s1
