-- ===== src/Lib.antt =====
-- Models of parts of ios-webkit-debug-proxy, with the theorems that make them correct.
--
-- The program sits between the browser's developer tools and iOS devices. It hears from usbmuxd
-- which devices come and go (src/device_listener.c), speaks to the web inspector of each device in
-- property lists over a packet stream (src/webinspector.c), and serves web sockets to the tools.
-- The readers of all three streams keep what they have not consumed in a buffer
-- (src/char_buffer.c), and tables from keys to values (src/hash_table.c) hold devices and clients.
--
--   CharBuffer      src/char_buffer.c: cb_new, cb_clear, cb_ensure_capacity, cb_begin_input and
--                   cb_end_input. The block is the live bytes and the offsets of the pointers; a call
--                   that would write outside the block is `none`.
--   HashTable       src/hash_table.c: every operation, on three buckets that are lists. HashTable/Keys
--                   has the two kinds of keys, HashTable/Bucket what happens in one bucket,
--                   HashTable/Table the invariant and the map that a table stands for.
--   Framing         the packet loop that wi_recv_loop and dl_recv_loop share, proved once; both are
--                   modelled by themselves, and shown to be instances of it.
--   WebInspector    src/webinspector.c: Packet has wi_send and wi_parse_length, Reader has wi_recv_loop
--                   and wi_on_recv, Session has wi_send_plist, wi_parse_plist and wi_recv_packet.
--   WebSocket       src/websocket.c: Send has ws_send_frame and ws_send_close, Read has
--                   ws_read_frame_length and ws_read_frame, on the bytes of a frame; Http has
--                   ws_read_http_request, ws_read_http_header and ws_read_headers.
--   DeviceListener  src/device_listener.c: Wire has the 32-bit numbers, Reader has dl_recv_loop and
--                   dl_on_recv, Session has dl_recv_packet and the packet of dl_start.
--   Rpc             src/rpc.c: the readers of dictionary items; Send has the messages to the device,
--                   Parse the lists of applications and pages, Receive the messages from the device
--                   and Receive/Trim the XML of an error.
--   PortConfig      src/port_config.c: the entries, pc_find and pc_select_port; Line has pc_parse and
--                   pc_add_line.
--   Iwdp            src/ios_webkit_debug_proxy.c: the objects at their addresses. Devtools gives pages to
--                   clients and takes them away (iwdp_start_devtools, iwdp_stop_devtools), and closes a
--                   client; Pages keeps what an inspector lists; Frames passes data on; Frontend has the
--                   paths and content types of what is served, Escape the strings of JSON.
--   SocketManager   src/socket_manager.c: the state, sm_add_fd and sm_remove_fd; Send has sm_send and
--                   sm_resend, Receive has sm_accept, sm_recv, sm_select and sm_cleanup. A callback
--                   acts on the whole state, since it may call back.
--   Plist           the calls of libplist that src/webinspector.c makes, as a parameter, with what is
--                   documented of them; src/device_listener.c and src/rpc.c have records of their own.
--   Bits            bit operations of C as arithmetic.
--   Prelude         the shared names, lists over native numbers, and the status of a call.
--   Tests           the theorems at concrete inputs.
--
-- State is passed explicitly: a handler takes the state and gives a status and the new state. A
-- callback is a function on a state of its own, which the handler's state carries. Memory is a
-- function `alloc` that says whether a block of a size is given. `size_t` has 64 bits and `int` has
-- 32; where C wraps or extends a sign, the definitions do.
--
-- The two packet loops run on fuel: twice the bytes plus two, since a round either reads a length
-- or takes a packet away; that this is enough is proved. The loop of wi_send_plist has one round
-- more than the message has bytes. pc_add_line has more rounds than the line has characters,
-- ws_read_headers one more than there are bytes, sm_resend more than the queue has items, sm_cleanup
-- more than there are sockets; the loop of sm_send, which takes a byte or more in a round, has one
-- round more than there are bytes. The loops of sm_accept, sm_recv and sm_select end when the operating system has nothing more, so
-- their fuel is not bounded.
--
-- Not modelled: opening sockets and the connections to usbmuxd and to a device, debug output, the
-- freeing of memory, SHA-1 and Base64 (copies of PolarSSL), the other copied headers, the examples,
-- and so far the receiving loop and the handshake of src/websocket.c, the attaching of devices, the
-- closing of ports and inspectors and the pages served by src/ios_webkit_debug_proxy.c, the parts of
-- src/rpc.c and src/port_config.c that make identifiers, copy structures and read a
-- file, and the hex dumps of src/char_buffer.c.
pub mod Prelude
pub mod CharBuffer
pub mod Bits
pub mod HashTable
pub mod Framing
pub mod Plist
pub mod WebInspector
pub mod DeviceListener
pub mod Tests
pub mod WebSocket
pub mod Rpc
pub mod SocketManager
pub mod PortConfig
pub mod Iwdp
