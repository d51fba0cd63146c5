-- ===== src/Lib.antt =====
-- A model of RELB, an easy load balancer for TCP connections, and what is proved of it.
--
-- The program. `main` (src/main.cpp) loads the configuration file (src/AppConfig.cpp) and gives its
-- first part to the object that listens (src/Bind.cpp). A listener accepts a client and asks the
-- `ServerList` for a server (src/ServerList.cpp, `getServer`). The answer is an entry of the list
-- of connections (`peer_info`), which is a session too: a client that comes back is taken to the
-- server that it had. The two sockets become a `ConnectionPeer` (src/ConnectionPeer.cpp), which is
-- given to a thread with room, a `ThreadedConnectionManager` of the
-- `ThreadedConnectionManagerList`. The thread waits in `select`, moves bytes between the two
-- sockets through two buffers, and posts what happens to the connection to the `ServerList`, whose
-- own thread keeps the counters of the servers (`processMessage`) and runs tasks (`execute`). The
-- administration (src/AdminHTTPServer.cpp) keeps copies of the connections and counters, from
-- messages, and posts kicks and bans back.
--
-- The files.
--   Prelude: the names that all files use; Boolean tests, lists and integers over native numbers.
--   Status: the codes of src/utiles.h. Address: `ipaddress` and the functions on it in
--     src/utiles.cpp; Parse has `char_to_ipaddress` and the `atoi` that it calls. Filters: `filterinfo`
--     and `isServerAllowed`.
--     Bindable has the tests whether an address can be bound (src/utiles.cpp).
--   Socket: `receiveNB`, `sendNB`, `close`, `isInFDSET`, `addToFDSET` and `checkSocket` of
--     src/Socket.cpp. MessageQueue: src/MessageQueue.cpp. ControlSocket: src/ControlSocket.cpp.
--   Connection: `ConnectionPeer`. Buffer has one of the two buffers with its offsets and counters; Peer
--     the state, the constructor and the closes; Transfer the four transfers and the checks; Manage
--     `manageConnections` and `manageConnectingPeer`; Interest what is put into the sets of `select`.
--     Close, Relay, Moves, Rounds, Making and Faults hold theorems.
--   Manager: Rounds has `ThreadedConnectionManager`, one round of `execute` included, and Pool has
--     `ThreadedConnectionManagerList`; Watch has the sets that are given to `select`. Asked,
--     Counting and Choice hold theorems.
--   ServerList: State has the records of src/ServerList.h, src/utiles.h and src/PeerInfo.h; Select the
--     search of `getServer` for a server; Sessions its search for a session, and what is done with
--     one; GetServer the whole function; Messages `processMessage`; Cleaning `cleanConnections` and
--     `purgeConnections`; Setup what the configuration calls; Tasks the task round of `execute`;
--     SetServer `setServer`, with its theorem; Loop the thread, `execute`, in steps, and Wake these steps
--     between those of other threads. The others hold theorems.
--   Config: `AppConfig`. State has the records of src/AppConfig.h, the constructor and the default values;
--     Endpoint the tags bind:, alsobind: and admin:; Servers the tags server:, retryserver: and
--     conperthread:; Rules the tag filter:; Tasks the tag task:; Lines `processConfigLine`, `loadFile`,
--     `loadConfig` and `checkConfig`; Cursor the positions, and Getters what is read there. Masks,
--     Times, Faults, Usable, Kept, Sound, Start, Fallback, Decimal, Written and RoundTrip hold
--     theorems.
--   Bind: State has `Bind`, Loop the two kinds of loops of `main`, and Main what `main` does between the
--     configuration and the threads; Execute is its thread, and Live fills its interface with the list of
--     servers and the administration of this model. Visits, Filled, Composed, Serving, Room and
--     Together hold theorems.
--   Program: Arguments and Run have `main` of src/main.cpp; Order holds theorems.
--   Admin: `AdminHTTPServer`. State has its state, the setup and what the pages kick, ban and ban_all
--     post; Messages what a message from `ServerList` changes, with the parts of `processMessage` that
--     are the same in the source; Request the line that asks for the page list, its parameters, and the
--     links to it; Pages the same for kick, ban and ban_all; Headings the links in the heading of the
--     page list; Listing its rows and their insertion; Serve the thread, `execute`, with its messages, its
--     clients and the pages that answer them. Links, Unnamed, Commanded, SortParts, Sorting, Order,
--     Sorted, Mirror, Following, Passed, Commands, Answers, Unchanged, Turns and Running hold theorems.
--   The modules Examples hold concrete states on which the theorems apply.
--
-- The correspondence. A class is a record of its fields, an operation a function from the state to the
-- state, named as in the source. What an object sends away is a list in its state: the messages to
-- `pjq` (`posted`), those to `parallelList` (`admin_posts`), and the calls of `closePInfo`
-- (`close_requests`). A connection also remembers the bytes that its sockets have carried. Pointers
-- are numbers, with `none` for NULL. A call on a null pointer, or a read beyond a list, makes the
-- result `none`.
-- The library PTypes and the kernel are parameters: the `jobqueue` under a `MessageQueue` (`Jobs`), the
-- pipe of the control socket (`Pipes`), and what `socket`, `bind`, `listen`, `select` and `accept` answer.
-- The clients of the administration, and the lines that each sends, are what PTypes' `serve` and `line`
-- answer.
--   Each reading of the clock is an argument of its own (`Clock`, `TaskClock`), in milliseconds. What
-- `recv`, `send` and `select` answer is an argument too; `Bounded` is what the manual says of them,
-- that they move at most what they are asked for. The float `load / weight` is a parameter, `ratio`,
-- as no theorem depends on its values but on their order and on which of them are 0.
--   A text is the list of its characters' codes without the final 0, and a pointer into it is the rest
-- of the text; a read behind the final 0 makes the result `none`. A file is a function from a path
-- to its lines, or nothing if it cannot be opened. What the configuration takes from the PTypes library and
-- the clock is in two records of parameters, `Network` (names of hosts, printed addresses, the
-- constants ipnone and ipany, the octet that an `int` becomes) and `Calendar` (dates, and the present
-- at each place where it is asked for). Whether an address can be bound is a parameter of the check.
-- `Bind` takes the functions of `ServerList` and `AdminHTTPServer` that it calls as an interface,
-- `Services`.
--   Weights and limits are integers, since `atoi` may read a negative one. Counters are natural
-- numbers: the source keeps them from falling below 0. The products and sums of `int` are taken to be
-- in range, and so are the numbers in a configuration file.
--
-- Bounds and fuel. A buffer has 16384 bytes (STAMBUFFERSOCKET). `closeClient` and `closeServer` call one
-- another with fuel 3, and each call takes a socket away. The search of `getServer` has fuel for one
-- round of the list and one step more, which is what it takes to come back to where it began. The loops
-- of `main` have fuel for the entries of the part and one step more. At most 4000 lines of a file are
-- read (MAX_CONFIG_LINES). All other loops go through a list, or down from an index.
--
-- Not modelled. A call of an operation is one step, so that the locks, and what another thread does
-- between two parts of a call, have no place here, but for `post` of `MessageQueue` and the loop of
-- `ServerList::execute`, whose parts are steps of their own. The field last_changed of `peer_info` is
-- never written. Name resolution and the opening of sockets are parameters. The builds for Windows
-- (the control socket that is closed to wake the thread, the service) and the code under DEBUG are
-- not in the model, nor are the destructors, the exceptions of PTypes' sockets in the loop of
-- `AdminHTTPServer::execute`, the text of its pages but for the links, and the time formatting. Text
-- that is only printed is left out. A line of the administration's client that ends behind "GET " makes
-- the source look at what an earlier line left in its buffer; such a line is taken to have one
-- character more.
pub mod Prelude
pub mod Status
pub mod Address
pub mod Parse
pub mod Filters
pub mod Bindable
pub mod Socket
pub mod MessageQueue
pub mod ControlSocket
pub mod Connection
pub mod Manager
pub mod ServerList
pub mod Config
pub mod Bind
pub mod Program
pub mod Admin
mod Examples
