-- ===== src/Lib.antt =====
-- Freenetic: a verification library for the JavaScript of the web interface, a set of LuCI modules and
-- views under web/application/htdocs/luci-static/resources/ (the paths below are from there). The
-- views draw forms and call the router; the logic they share stands in `freenetic-*.js` modules
-- without DOM code, and those are what is modelled here.
--
-- The parts and their files
--   Base      what the components share: Boolean tests on ℕ, lists, texts (sequences of code units),
--             loops, decimal numbers, bits.
--   Qr        freenetic-qrcode.js, the QR code encoder that the Wi-Fi pages use. `encode` chains
--             the parts: utf8Bytes, pickVersion (Qr/Blocks), buildDataCodewords (Qr/Codewords, over
--             the BitBuffer of Qr/Buffer), rsEncode for each block (Qr/Rs, over the field of Qr/Field),
--             interleave (Qr/Interleave) and buildMatrix (Qr/Matrix, with the service words of Qr/Bch).
--             Qr/Encode puts them together; its `Outcome` has the three ways in which a call ends.
--   Multiwan  freenetic-multiwan-data.js, the model of the mwan3 configuration: readings of UCI
--             options (Multiwan/Values), nextRouteMetric (Multiwan/Metric),
--             buildModePlan (Multiwan/Plan), the detection of its mode (Multiwan/Detect),
--             buildTrafficState (Multiwan/Traffic), the runtime states (Multiwan/Runtime) and buildModel
--             (Multiwan/Model).
--   Network   freenetic-network.js, the sections that Freenetic owns in the router's configuration:
--             ensureGuestFirewall, ensureGuestWifi, removeGuestFirewallRules (Network/Guest) and
--             adoptLegacyGuest (Network/Guest/Adopt). The source calls LuCI's `uci` module, which is not
--             in the repository: it is an argument (`Uci` of Network/Uci) with `Laws`, its documented
--             behaviour; Network/Store is a store in memory that has them.
--             Network/Address has validIPv4, validIPv4Netmask and validPort, and Network/Ipv6 the IPv6
--             addresses and the networks of routes.
--   Release   the releases of freenetic-dashboard-data.js: tags and their comparison (Release/Tags), and
--             freeneticReleasePlan (Release/Plan), the candidates of a channel and the notes
--             (Release/Candidates).
--   Connections  freenetic-connections-core.js: values and their checks (Connections/Fields), the files of
--             WireGuard and AmneziaWG (Connections/Draft reads lines, Connections/Config checks and writes),
--             key providers (Connections/Keys), OpenVPN profiles (Connections/Profiles) and readings of the
--             running system (Connections/Status). The checks of addresses are those of Network. The proofs
--             that files are read back stand in Connections/Round.
--   Dashboard  the rest of freenetic-dashboard-data.js that is no call: clients (Dashboard/Clients), internet
--             connections (Dashboard/Wan), the version (Dashboard/Version); and freenetic-diagnostics.js
--             (Dashboard/Diagnostics).
--   Rpc       web/theme/htdocs/luci-static/resources/freenetic-rpc.js, by which the views call the router:
--             the replies (Rpc), and the calls, requests and their order as a state and events (Rpc/Queue).
--             The number of events that settle all calls is bounded in Rpc/Settled.
--
-- Correspondence
--   A function keeps the name of its source in snake case; helpers stand for the loops and the inner
--   functions of the same source function. JavaScript numbers are ℕ where the source never makes them
--   negative; shifts and masks are written with / 2 ^ n and % 2 ^ n, and `^` is bit_xor. The tables
--   of the encoder are a value (`Tables`) that init_gf256 returns, passed to the functions that read
--   them. A matrix is a list of rows; a cell is null (none) or a Boolean. UCI options are missing, a
--   text or a list of texts (`Value`), which is all that UCI hands out.
--
-- Bounds and fuel
--   The `for` loops are structural recursion on the number of rounds. The endless loop over the rows
--   of buildMatrix has as many rounds as there are rows, since each moves by one row towards the
--   edge; the division of bchEncode has as many rounds as its input has digits at most. The padding
--   loop of buildDataCodewords has as many rounds as the capacity: each round adds a byte.
--
--   `Number` of the digits in a tag or version rounds to a double (Release/Numbers): the search for the
--   spacing of the doubles has 971 steps, after which a number is beyond the largest double.
--   The scheduler of calls settles every call within `weight` further events (Rpc/Settled).
--
-- Not modelled
--   The views, menus and templates, which build DOM nodes; the shell, ucode and C programs; the canvas
--   of the browser, of which the model keeps the rectangles filled.
--   Of freenetic-dashboard-data.js the calls, the radios and the texts for display; of
--   freenetic-connections-core.js the calls of the router's helpers and the texts for display.
--   `toLowerCase` and `toUpperCase` are modelled on ASCII letters. Objects are lists of the keys that were
--   set: names that every object inherits are left out, but in parseConfig. `localeCompare` and what the
--   router answers are arguments.
pub mod Base
pub mod Connections
pub mod Dashboard
pub mod Multiwan
pub mod Network
pub mod Qr
pub mod Release
pub mod Rpc
