-- ===== src/Lib.antt =====
-- CommsChampion Tools for Qt (cc_tools_qt): an application and a library that send, receive and show
-- the messages of a binary protocol. Plugins supply a socket, filters and a protocol.
--
-- The parts. A socket plugin moves blocks of bytes (lib/src/ToolsSocket.cpp). Filters change
-- blocks on their way. A protocol makes messages of blocks and blocks of messages. The message manager
-- (lib/src/ToolsMsgMgrImpl.cpp) owns the list of messages and drives the plugins in both directions.
-- The send manager (lib/src/ToolsMsgSendMgrImpl.cpp) gives it messages to send, timed and repeated.
-- The file manager (lib/src/ToolsMsgFileMgr.cpp) turns lists of messages into entries of a file and
-- back. The application's manager (app/cc_view/src/GuiAppMgr.cpp) stands between all of these and the
-- window with its two lists of messages: those sent and received, and those to send.
--
-- Which file is about which code:
--   Message        the properties of a message (lib/include/cc_tools_qt/property/message.h,
--                  ToolsMessage.h) and a block (ToolsDataInfo.h); Variant is QVariant as far as used.
--   Plugins        the plugins as the managers call them; an object is a number, its identity, and W
--                  is the state of all plugins and of the world.
--   MsgMgr         ToolsMsgMgrImpl. Fields: State and the private helpers. Control: start, stop, clear,
--                  the setters and the slots that only report. Chain: the loops over the filters.
--                  Send: sendMsgs. Receive: socketDataReceived, addMsgs, filterDataToSendReport.
--                  Delete: deleteMsg, deleteMsgs. The field `objects` of State is the heap of message
--                  objects, since the list holds shared pointers, and `events` the callbacks made.
--                  Order: the invariant of the list. History: sequences of operations.
--   SendMgr        ToolsMsgSendMgrImpl, by values, since `start` clones. Agenda: the abstract view, a
--                  list of messages with the absolute times at which they are due. Clones: what is sent
--                  in place of a message. Counting: how many messages are still to be sent.
--   MsgFile        ToolsMsgFileMgr. Hex: bytes as text. Entry: convertRecvMsg and convertSendMsgList
--                  for saving. Create: createMsgObjectFrom. Reload: convertRecvMsgList and
--                  convertSendMsgList for loading. Replay: what happens to saved received messages.
--   Factory        ToolsMsgFactory.cpp: default messages by identifier and index. Choice: which one.
--   Protocol       ToolsProtocol.cpp over a frame. Recreation: createAllMessages with createMessage.
--                  Copies: cloneMessage.
--   FrameBase      lib/include/cc_tools_qt/ToolsFrameBase.h: a stream of bytes into messages, with
--                  the bytes that are none. Stream: what becomes of each byte.
--   Socket         ToolsSocket. Announcing: its signals. Echo: plugin/echo_socket/EchoSocket.cpp.
--   TcpProxy       plugin/tcp_socket/proxy/TcpProxySocket.cpp. Pairs: its connection pairs.
--   TcpServer      plugin/tcp_socket/server/TcpServerSocket.cpp. Broadcast: to whom it sends.
--   Udp            what the UDP sockets share. Writing: the loop that writes a block.
--   UdpProxy       plugin/udp_socket/proxy/UdpProxySocket.cpp. Queues, Relay: what it passes on.
--   UdpGeneric     plugin/udp_socket/generic/UdpGenericSocket.cpp. Sending: what it writes of a block.
--   ListView       app/cc_view/src/widget/MsgListWidget.cpp: the rows of a list and its current row.
--   Gui            GuiAppMgr with its two lists (also RecvMsgListWidget, SendMsgListWidget). Qt runs a
--                  slot when its signal is emitted, so a signal to a list is a change of the list,
--                  and the others are recorded. Clicks, RecvList, SendList, Dialogs: the slots. Selection,
--                  Consistent: the selection, the counters and what the lists show. Steps: sequences
--                  of what can happen to the window, with the conditions under which a slot that needs
--                  a selection runs. Shown: which messages are listed.
--                  Moving: where a moved row goes.
--                  ToolBars: RecvAreaToolBar.cpp and SendAreaToolBar.cpp, with what the bars show
--                  after each slot.
--   Loopback       the message manager with an echo socket and a ToolsProtocol. Coding: the filters.
--                  Waiting, Contents, Arrival: a message on its way.
--   Applying       GuiAppMgr::applyNewPlugins over all of the managers. Retiring: the old plugins.
--                  Choosing, Outcome: the new ones. Display, Keeping: the window meanwhile.
--   Plugin         lib/src/ToolsPlugin.cpp: what a plugin creates.
--   PluginMgr      lib/src/ToolsPluginMgrImpl.cpp: the applied plugins. Config: a configuration.
--   Base           list, dictionary and test helpers that the other files share.
--   Tests          the theorems at concrete inputs.
--
-- Numbers. All are naturals with the wrap-around written out: the counter of messages has 64 bits, an
-- index of a message class 32, a timestamp 64, the interval of the timer is the bit pattern of an
-- `int`. The code's loops are recursion over lists. Some take fuel: `rounds` of SendMgr, where the
-- number of messages still to be sent is enough, `search` of MsgFile, where one more than the number
-- of message classes is enough, `read_loop` of FrameBase and `write_loop` of Udp, where the number of
-- bytes is enough, and the loops of the UDP sockets over datagrams, where the number of those that
-- wait is enough. Asserts are those of a release build, without effect.
--
-- Parameters. The functions of plugins, the frame of a protocol, the clock, and Qt's treatment of
-- characters and of numbers in text (record Text, with its documented behaviour in Documented), its
-- network sockets (records Net and UdpNet), and the row that QListWidget makes current when one is
-- taken out (`next`).
--
-- Not modelled: a plugin that calls its caller back during a call, threads (the code has one), debug
-- output, reference counts, most conversions of a QVariant of an unexpected kind, the files
-- themselves and their JSON text, the fields of messages, the files of a configuration, the loading
-- of plugins, the other network sockets, and of the graphical interface all but the two lists of
-- messages and their tool bars: texts and colours, the dialogs, the signals that only open them, and
-- the time between two clicks.
pub mod Base
pub mod Message
pub mod Plugins
pub mod MsgMgr
pub mod SendMgr
pub mod MsgFile
pub mod Socket
pub mod TcpProxy
pub mod TcpServer
pub mod Udp
pub mod UdpProxy
pub mod UdpGeneric
pub mod PluginMgr
pub mod Plugin
pub mod Applying
pub mod Loopback
pub mod ListView
pub mod Gui
pub mod Factory
pub mod Protocol
pub mod FrameBase
pub mod Tests
