-- ===== src/Lib.antt =====
-- The core of esp-csi-rs-core, a crate that collects Wi-Fi channel state information (CSI) on ESP32
-- chips. The driver calls the crate once for each captured frame; the crate classifies the frame,
-- filters it by sender and PHY class, counts it and its losses, and hands it to one place:
-- the user's callback, a bounded queue that an asynchronous consumer drains, or a logger that writes
-- one line for each packet. Beside this path, a node exchanges ESP-NOW control frames with a central,
-- or runs an access point that leases addresses to its stations.
--
-- The modelled build is the one for the classic chips (neither esp32c5 nor esp32c6), with the
-- `statistics` feature and with both the synchronous and the asynchronous log path (`auto`).
--
-- Files and the code they model, by the path from the repository's root:
--   Common: numbers, lists, bits, integers and MAC addresses that all parts share.
--   Containers: the bounded queue and map of heapless and embassy-sync as interfaces, with laws for
--     what the code relies on; Containers/Samples has instances to evaluate at.
--   Time: src/lib/time.rs. The two loops of `unix_to_date_time` run on fuel: one more step than
--     there are days for the years, and twelve for the months: a year has at least one day, and the
--     days left after the years run out within twelve months.
--   Csi: src/lib/csi/mod.rs and `from_wifi_csi_info` of src/lib/csi/delivery.rs: the packet, its
--     format, and how it is built of what the driver reports.
--   Stats: src/lib/stats.rs: the counters, which wrap at their width. The clock is an argument.
--   Delivery: src/lib/csi/delivery.rs. The statics are the fields of one record, each setter is a
--     function on it, and `capture_csi_info` is the driver's callback, which returns the state and
--     what it does beyond it. Its children: Filter and Calls for the attribution filter, Stores for
--     the order of the atomic stores of a setter, Sequence for the losses, Capture, Route, Output
--     and Balance for the callback, Consumer for `next_csi_packet` and its waker, Rates for the task that publishes the
--     rates, on a list of what happens while it runs.
--   Logging: src/lib/logging/logging.rs: the logger's state and `log_csi`; Logging/Encode has the byte
--     writers on a buffer and a cursor, where a write out of bounds is a panic, that is `none`;
--     Logging/CsiTool has the formatter of the EspCsiTool line and, in Sync, the writes behind the header
--     line; Logging/ArrayList has the formatter of the array list, whose `write!` calls are pieces of
--     text that a writer refuses where they do not fit; Logging/Text has the asynchronous text formatter,
--     which flushes its scratch as it goes; Logging/Backend has the task behind the channels one step at
--     a time, so that producers may log before each of its steps, and the four asynchronous writes.
--   Protocol: src/lib/protocol.rs: the framing; postcard is an interface with its round trip as law.
--   Peripheral: src/lib/peripheral/esp_now.rs: the responder's handling of control frames and its
--     adaptive pacing; the driver's peer table is an interface. Peripheral/Responder has the loop of
--     `responder` one round at a time; its two inner loops run on the burst constants of the source.
--   FastEspNow: src/lib/central/esp_now_fast.rs and src/lib/peripheral/esp_now_fast.rs: the discovery
--     beacons of the collector, the search and the flood of the source.
--   Central: src/lib/central/esp_now.rs: the central's handling of peripheral frames, and the numbering,
--     counting and pacing of its control packets.
--   Ap: the address pool of src/lib/node.rs and the DHCP tables of src/lib/collector/ap.rs; Ap/Dhcp has
--     its DHCP server, on a list of what the socket receives, and Ap/Tasks `run_ap`, the station
--     monitor and the wait for a lease in front of the floods, on the 120 attempts of the source.
--   EspNowPool: src/lib/esp_now_pool.rs: the receive callback and its queue of frames.
--   Radio: src/lib/radio.rs and src/lib/espnow_phy.rs: the driver calls for the channel, the receive
--     callback and the PHY of a peer, and the driver's codes of the rates.
--   Config: src/lib/config/csi.rs and src/lib/central_peripheral.rs: what a user configures.
--   Emitter: src/lib/emitter: the probe frame, the order of the driver calls before the emission, and
--     the emission loop.
--   Node: src/lib/node.rs and src/lib/profile.rs: the roles and the setters; Node/Run has `run_inner` as
--     the list of the calls that it makes, and `execute`, which ends it where the driver fails a call
--     that the code unwraps. Its children: Calls for what calls arm and set up, Handed for what the
--     joined tasks are given, and Arming. A task that a run joins is one entry there, and its calls are those of the part that models it.
--   Station: src/lib/collector/sta.rs: the connection loop; Station/Flood has the three ICMP floods one
--     round at a time. The loop of a round runs on the burst budget of the source.
--
-- How the parts meet: Delivery takes packets from Csi, counts in Stats and calls Logging; Peripheral
-- parses frames by Protocol, as do Central and FastEspNow; the floods of Ap/Tasks are those of
-- Station/Flood; a run of Node resets Stats and Delivery, arms the callback and starts the tasks of
-- Emitter, Station, Ap, Central and Peripheral; Delivery, Logging and EspNowPool use the interfaces of
-- Containers. Logging/Backend takes from the channel what `log_csi` puts there.
-- A function pointer is the number of the function. Relaxed and released atomics are read and written
-- in program order; interleavings with the Wi-Fi task are explicit in Delivery/Stores, and between
-- captures and reads in Delivery/Balance. What the logger's producers do is explicit between the steps of
-- Logging/Backend.
--
-- Not modelled: the synchronous text formatter, the start-up and the transports of the logger, the DHCP
-- client and the reconnection of the station, and what runs on the esp32c5 and esp32c6 alone; they are
-- sequences of driver, executor and network-stack calls, or await later work. src/lib/central/ap.rs and
-- src/lib/central/sta.rs are copies that no module declaration compiles.
pub mod Common
pub mod Containers
pub mod Time
pub mod Csi
pub mod Stats
pub mod Logging
pub mod Delivery
pub mod Protocol
pub mod Peripheral
pub mod Ap
pub mod EspNowPool
pub mod Emitter
pub mod FastEspNow
pub mod Radio
pub mod Config
pub mod Node
pub mod Station
pub mod Central
