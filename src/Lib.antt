-- ===== src/Lib.antt =====
-- wificond, the daemon that controls Wi-Fi interfaces through nl80211 netlink packets.
--
-- The parts and how they interact. The kernel's packets are byte buffers (net/nl80211_packet.cpp)
-- with attributes behind two headers (net/nl80211_attribute.cpp). The netlink manager sends
-- requests, waits for their answers and hands broadcasts to the objects that have subscribed
-- (net/netlink_manager.cpp). Requests for wiphys, interfaces and stations are built and their
-- replies read in net/netlink_utils.cpp, those for scans in scanning/scan_utils.cpp; MLME events are
-- read in net/mlme_event.cpp. The server keeps the interface objects by name (server.cpp): a client
-- interface follows the MLME events (client_interface_impl.cpp), an access point counts its
-- stations (ap_interface_impl.cpp), and a scanner requests scans over netlink or over the offload
-- HAL (scanning/scanner_impl.cpp), whose manager calls the scanner back
-- (scanning/offload/offload_scan_manager.cpp).
--
-- The files:
--   Base          names of the library, Boolean tests on numbers, bits, list functions, maps by key
--                 in the order of their keys, and `Outcome`, what a call comes to: a value, the
--                 answer `false`, a loop without end, or a fault. A fault is a read outside a buffer,
--                 a call through a null pointer, or a failed CHECK.
--   Wire          bytes, little-endian integers, NLA_ALIGN and the fields of `struct nlattr`
--   Nl80211       numbers of net/kernel-header-latest/nl80211.h
--   Attribute     net/nl80211_attribute.{h,cpp}; an attribute object is its `data_`
--   Packet        net/nl80211_packet.{h,cpp}; a packet object is its `data_`
--   Netlink       net/netlink_manager.cpp: sequence numbers, and the loop that hands the messages of
--                 a datagram to their handlers; Netlink/Requests the loop that waits for answers,
--                 and Netlink/Family the discovery of the nl80211 family and the start
--   Broadcast     net/netlink_manager.cpp: `BroadcastHandler` and the handlers behind it, and in
--                 Broadcast/Subscribing the subscription calls
--   Mlme          net/mlme_event.{h,cpp}
--   Wiphy         the readers of NEW_WIPHY packets in net/netlink_utils.cpp: bands, scan capabilities
--                 and features
--   NetlinkUtils  the other requests of net/netlink_utils.cpp and the readers of their replies
--   SplitDump     net/netlink_utils.cpp: `MergePacketsForSplitWiphyDump` and `GetWiphyInfo`
--   Client        client_interface_impl.cpp
--   Ap            ap_interface_impl.cpp; the counter of the stations is a word of 32 bits
--   ScanResult    the readers of scanning/scan_utils.cpp: `GetScanResult`, `ParseScanResult`,
--                 `GetSSIDFromInfoElement`, `GetBssTimestamp`, `ParseRadioChainInfos`
--   HalData       scanning/offload/offload_scan_utils.cpp
--   Offload       scanning/offload/offload_scan_manager.cpp; `Manager` holds the members, `Hal` the
--                 answers of the service
--   ScanRequest   the settings, and the requests that scanning/scanner_impl.cpp makes from them
--   ScanPacket    the packets of these requests in scanning/scan_utils.cpp, and what their answers
--                 come to
--   Scanner       scanning/scanner_impl.cpp; a state is the manager and the scanner's members, and
--                 `World` holds what the rest of the system answers during an operation;
--                 Scanner/Invalidating holds `Invalidate`
--   Parcel        the writeToParcel and readFromParcel functions of the classes in scanning/ and
--                 scanning/offload/scan_stats.cpp; `Calls` holds the calls of the Parcel class
--   Server        server.cpp; an interface object is its binder object's number and the kernel's
--                 interface, and what the callbacks are told is recorded in order. Server/Lifecycle
--                 holds what the constructors and destructors of the interface objects and of the
--                 scanner subscribe to; Server/Registry the registry that callers see, and
--                 Server/Offers what the kernel offers for a name. The destructors take their
--                 interfaces down, and the order in which clearing a `std::map` runs them is an
--                 argument (`Clearing`).
--   Tests         runs of the model, and the theorems at concrete inputs
-- A file's folder holds its proofs.
--
-- Names follow the source in this library's spelling: `GetAttributeImpl` is `get_attribute_impl`.
-- A function that writes its result through a pointer and returns a `bool` returns an `Outcome`;
-- where its caller looks at the result after a failure, it returns the result and the answer. An
-- operation of an object takes the members and returns them changed.
--
-- Bounds and fuel. Numbers are natural numbers; fields of 8, 16 and 32 bits are cut where they are
-- stored, and signed values are kept as their bit patterns. The sizes of vectors are not bounded.
-- The loops over bytes run on fuel, one more than the bytes there are: each round that goes on
-- drops at least a header, except for a header of length 0, on which the loop of the source stays.
-- The wait for answers takes its rounds as a list: what `poll` and `read` returned, and the
-- milliseconds that went by, of the 300 that the source waits. Where the list ends while the source
-- would wait on, the outcome is `hang`.
-- The layout is that of a little-endian machine. The sizes and flags of the netlink headers, which
-- the source takes from the system's headers, are written out in Wire, Packet and Netlink/Family.
--
-- The netlink manager is a parameter of the requests (`Link`): the family, the sequence number, the
-- process id, and the packets that it answers a request with. The readers of replies take what
-- these are.
--
-- Not modelled: the system calls behind `SetupSocket`, `WatchSocket` and `SendMessageInternal`, whose
-- answers are arguments; what `GetWiphyInfo` has written by the time it fails; binder and HIDL glue,
-- the event loop, supplicant and hostapd start-up, dumps and logging, and the vendored
-- kernel header but for its numbers. Calls of these parts are arguments of the operations that make
-- them.
pub mod Base
pub mod Wire
pub mod Nl80211
pub mod Attribute
pub mod Packet
pub mod Mlme
pub mod Client
pub mod Ap
pub mod ScanResult
pub mod HalData
pub mod Offload
pub mod Netlink
pub mod Broadcast
pub mod Wiphy
pub mod NetlinkUtils
pub mod SplitDump
pub mod ScanRequest
pub mod ScanPacket
pub mod Scanner
pub mod Parcel
pub mod Server
pub mod Tests
