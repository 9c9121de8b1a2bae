-- ===== src/Lib.antt =====
-- A model of nic-autoswitch, a daemon that keeps policy routes in step with the network interfaces of
-- a machine.
--
-- The daemon reads a configuration of interfaces, default rules and WiFi profiles, and validates it. A
-- monitor polls the links of the kernel and reports what changed as network events. The dispatcher
-- takes the events one by one: it updates what is known of the interfaces, and has the executor apply
-- or remove rules; the executor validates a rule, has the rule operator turn it into a policy rule and
-- a route, and records what is active. The route manager sends the requests to the kernel. The matcher
-- says which rule a destination falls under, with the help of a resolver that caches names.
--
-- The service ties them together: it loads the configuration, connects the manager and the monitor,
-- applies the default rules to what is up, and then waits in its main loop for signals, the ticks of
-- its timers and the watchdog of systemd. A control socket takes commands from a client of the command
-- line. The daemon as it stands starts neither the control socket nor the watcher of the file.
--
-- Files and sources:
--   Config/Schema, Config/Pattern, Config/Validate   src/config/schema.rs
--   Config/Loader, Config/Watcher                    src/config/{loader,watcher}.rs
--   Error, Error/Display                             src/error.rs
--   Ip                                               IpAddr and IpNetwork, as the sources use them
--   Monitor/Events, Monitor/State, Monitor/Netlink   src/monitor/{events,state,netlink}.rs
--   Monitor/NetworkManager                           src/monitor/networkmanager.rs
--   Router/Dns                                       src/router/dns.rs
--   Router/Kernel                                    what src/router/manager.rs uses of rtnetlink
--   Router/Manager/{Base,Change,Query}               src/router/manager.rs
--   Router/Rules                                     src/router/rules.rs
--   Engine/Matcher                                   src/engine/matcher.rs
--   Engine/Executor                                  src/engine/executor.rs
--   Engine/Dispatcher/{State,Apply,Handle}           src/engine/dispatcher.rs, and the loop over events
--                                                    of poll_network_changes in src/daemon/service.rs
--   Daemon/Json                                      the values of serde_json
--   Daemon/Control                                   src/daemon/control.rs
--   Daemon/Signals, Daemon/Systemd                   src/daemon/{signals,systemd}.rs
--   Daemon/Service                                   src/daemon/service.rs: the service's operations
--   Daemon/Service/Run                               its main loop and its run, and run_daemon
--                                                    of src/main.rs
--   Daemon/Service/Tasks                             reloads by several tasks, in src/daemon/service.rs
--                                                    and update_config of src/engine/dispatcher.rs
--   Daemon/Main                                      src/main.rs
--   Cli/Client, Cli/Commands, Cli/Display            src/cli/{client,commands,main}.rs
--   Tests                                            the theorems at concrete data
-- The other files hold proofs, each about the definitions of its parent. Structs are records, enums are
-- data types with the source's variants, and each function has the source's name. Where one source name
-- stands for several functions, the model adds what it acts on: Config::validate is validate, and
-- GlobalConfig::validate is validate_global. An operation takes and returns the state it changes: the
-- record of its struct, and a kernel of any type K on which the functions of Netlink act. The matcher's
-- caller hands over the times and the answer of the resolver library, and the loader's caller what a
-- read of the file meets. The main loop takes the list of what wakes it, each with what the code meets
-- then; an outcome `none` says that it waits for more. What serde makes of the types of the control
-- socket is a record of functions, and so is the socket of a client. A result is ok or err.
--
-- Strings are sequences of bytes, and a HashMap is an association list, whose order stands for the
-- order in which the table happens to iterate; the theorems hold for every order. Numbers are natural
-- numbers; a u8 index keeps its wrap-around, `% 256`, and sums of a u32 table number and a u8 index do
-- not overflow for the tables that the manager accepts. All loops run over lists, and the clean-up over
-- 32 numbers, so that no fuel is needed. A u64 of the watchdog is below 2 ^ 64, and keeps its `%`.
--
-- The functions of Netlink obey no laws but where a theorem takes them, as a record that states what the
-- kernel documents: AddLaws and GrowLaws of Router/Repeat and Router/Backed for the requests to add,
-- UndoLaws of Router/Undo for the deletion of a policy rule that was added, DeleteLaws of Router/Apart for
-- the entries that a deletion leaves, FlushLaws and Ipv6Laws of Router/Manager/Flush and Router/Manager/Ipv6
-- for deletions and listings, and FamilyLaw of Engine/Dispatcher/Stuck for routes of no address family,
-- among which is every message of remove_route.
-- RoutesLaws of Cli/Routes does so for serde_json.
--
-- The locks are held for single reads and writes and the daemon's loop makes one call at a time, so a
-- call is one step; a call of the control interface by another task is taken to fall between two turns of
-- the main loop. Daemon/Service/Tasks gives this up for the reloads: there a step is what a task does
-- between two acquisitions of a lock, any number of tasks reload at once, and their steps come in any
-- order. Logging is left out, and so are the formats of the texts that errors carry, which are data.
-- Not modelled: the timers, which only say when a task goes on, the time limit of a control connection,
-- the files of sockets, the parse of arguments, D-Bus, and the reading of TOML.
pub mod Common
pub mod Error
pub mod Ip
pub mod Config
pub mod Monitor
pub mod Router
pub mod Engine
pub mod Daemon
pub mod Cli
pub mod Tests
