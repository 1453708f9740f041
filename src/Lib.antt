-- ===== src/Lib.antt =====
-- Waymon shares one mouse and keyboard between machines: a server captures the input devices and
-- sends their events over SSH to the client that it controls, which injects them. This library
-- models the parts of the Go program that decide where input goes.
--
-- The parts, and how they interact:
--   * internal/input/all_devices_capture.go (Capture): the server reads the devices, grabs them
--     while a client is the target, and passes the events on through a channel.
--   * internal/server/manager.go (Manager): the client manager routes each event to the active
--     client, tracks the client's cursor, switches between clients and the local system on events,
--     IPC commands and releases, and calls the capture's SetTarget and the SSH server.
--   * internal/network (Network): an event is marshalled into a frame, a length and the data; the
--     loops of ssh_server.go and ssh_client.go read the frames. The SSH server decides which keys
--     are accepted and keeps the sessions.
--   * internal/config/config.go (Config): the settings, with the list of accepted keys.
--   * internal/server/server.go and emergency.go (Server): the assembly of the parts, and the
--     release of control in an emergency, which goes through the manager to the capture.
--   * internal/ipc (Ipc): commands of other processes, which a handler answers: the client manager,
--     or the switch manager of internal/input.
--   * internal/input/switch.go, event_aggregator.go and edge_detector.go (Input): a rotation of
--     computers, filters of events, and the edges of the screen. Only tests use them so far.
--   * internal/client/receiver.go (Client): the client follows the control messages, injects the
--     input while it is controlled, and has a monitor of its connection.
--   * internal/input/wayland_virtual_input.go (Client): the virtual pointer and keyboard of the client.
--   * internal/display/monitor.go (Display): monitors, their edges and the primary one.
--   * internal/ui (Ui): the server's text interface, whose keys switch between the clients.
--   * internal/protocol/events.proto (Proto): the messages.
--
-- Which file models what:
--   * Manager/State: ClientManager, ConnectedClient, cursorState, NewClientManager. Manager/Cursor:
--     calculateTotalDisplayBounds, constrainCursorPosition, findMainMonitor. Manager/Switch:
--     SwitchToClient, SwitchToLocal, SwitchToNextClient. Manager/Clients: RegisterClient,
--     UnregisterClient, updateClientConfiguration, Stop, NotifyShutdown and the setters.
--     Manager/Route: HandleInputEvent, handleControlEvent. Manager/Rotation: HandleSwitchCommand,
--     HandleStatusQuery. The proofs: Manager/Core, Invariant, Steps, Lifecycle, Reach and Runs (the
--     invariant under every call), Bounds, Confine and MainMonitor (the cursor), Targets, Cooldown
--     and Status.
--   * Display/Monitor: Monitor, GetEdge, GetMonitorAt, determinePrimaryMonitor; Display/Edges and
--     Display/Primary have the proofs. Display/WlrRandr: the monitors that wlr-randr reports, with
--     proofs. Display/Backends: wlr-output-management and New.
--   * Network/Frame: writeInputMessage, writeInputEvent. Network/Receive: handleMouseEvents,
--     receiveInputEvents. Network/Progress, Loop and RoundTrip have the proofs.
--   * Capture/State: AllDevicesCapture. Capture/Target: SetTarget and the safety timer.
--     Capture/Events: captureFromDevice, the send functions, processEvents. Capture/Devices:
--     addDevice, isValidInputDevice, checkForDeviceChanges. Capture/Grabs, Keys, Motion and Scan have
--     the proofs.
--   * Client/Receiver: InputReceiver, handleControlEvent, processInputEvent, injectEvent, with the
--     mutex as a flag and a wait that never ends as an outcome. Client/Reconnect:
--     monitorConnection, attemptReconnection, Disconnect. Client/Connect: Connect,
--     sendClientConfiguration, reconnectToServer, RequestControlRelease. The proofs: Client/Control
--     and Messages (control messages), Quiet (the monitor of the connection).
--   * Client/VirtualInput and Client/Injection: WaylandVirtualInput. Client/Buttons has proofs about a
--     button's way from the capture to the virtual pointer.
--   * Network/Sessions: publicKeyAuth, sessionHandler, SendEventToClient and the other deliveries,
--     Stop, and OnAuthRequest of cmd/server.go. Network/Whitelist and Network/Admission have the
--     proofs, the latter over a step relation of what clients and the server do.
--   * Network/Keys: loadPrivateKey. Network/Dial: SSHClient, Connect, Disconnect, SendInputEvent, and the
--     refusal that receiveInputEvents reads; Network/Cleanup has proofs about what stays open.
--   * Config/Store: Config, Get, AddHost, RemoveHost, the functions of the SSH whitelist.
--   * Server/State: Server, Start, Stop and the callbacks. Server/Emergency: triggerRelease and the
--     three monitors. Server/Release puts the manager over the capture. Server/Connections: the
--     callbacks of cmd/server.go; Server/Announcement follows a client's configuration through them.
--   * Input/Switch: SwitchManager and IPCHandler. Input/Contract is the rotation by names that it
--     implements; Input/Places, View, Removal, Moves and Refinement are the proof.
--     Input/Aggregator: EventAggregator and its filters, with proofs in Input/RateLimit.
--     Input/EdgeDetector: EdgeDetector, with proofs in Input/Debounce.
--   * Ipc/Messages: protocol.go. Ipc/Socket: a connection of socket.go. Ipc/Client: client.go.
--     Ipc/Handlers: the two handlers. Ipc/Exchange and Ipc/Termination have the proofs.
--   * Ui/Base and Ui/ServerModel: the log, the shutdown and the keys of the server's text interface
--     (internal/ui/base.go and server.go), with proofs in Ui/Control.
--   * Common has the shared names and helpers, Float the operations of float64, and Examples
--     concrete states.
--
-- Conventions. A method takes the state and returns the new one; the locks of the manager and of the
-- capture make methods run one at a time. time.Now() is an argument, in nanoseconds. A Go map is an
-- association list in the order in which a loop meets it. int32 sums wrap, as written out with
-- `int32`. float64 is a parameter with its operations (Float64); IsIeee states what is used of it:
-- comparison is irreflexive, and exact on converted int32 values.
--
-- Parameters for code that is elsewhere: Platform (the input backend's SetTarget, the SSH server's
-- SendEventToClient, os.Hostname), Codec (protobuf's Marshal and Unmarshal), Writer (an io.Writer),
-- Evdev (evdev's Open, Grab, Release and event codes), Link (the SSH client and the backend of
-- the receiver), Wayland (the virtual devices and the codes of buttons),
-- the Codec of Ipc/Socket (protobuf for IPC messages), Client of Input/EdgeDetector (the network
-- client of the detector), Startup of Server/State (what the system answers while the server
-- starts), Answers and Files of
-- Network/Dial (what the SSH library, the agent and the files of keys answer), Outside of
-- Client/Connect (dialling, sending, the displays and the environment), and
-- whether viper saves the configuration.
--
-- Fuel: `loop` of Network/Receive runs on the number of bytes that are to come. Each turn that goes
-- on takes at least four of them, so that this is enough (`loop-Runs`, with a relation without
-- fuel); the same holds of `serve` of Ipc/Socket (`serve-Serves`). The backoff runs over the list of
-- the results of its attempts.
--
-- Not modelled: the goroutines' interleavings; the listening of the SSH and the IPC servers;
-- the files of internal/config; the other display backends and the text that
-- wlr-randr writes; the drawing of the interfaces and most of the commands; the libraries under brain.
pub mod Common
pub mod Proto
pub mod Float
pub mod Manager
pub mod Display
pub mod Network
pub mod Capture
pub mod Client
pub mod Config
pub mod Input
pub mod Server
pub mod Ipc
pub mod Ui
pub mod Examples
