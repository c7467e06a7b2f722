-- ===== src/Lib.antt =====
-- This library models the ROS 2 driver of the WSG 50 gripper: the class Transport of
-- wsg50_driver/src/transport.cpp and wsg50_driver/include/wsg50_driver/transport.hpp, which
-- speaks the device's binary protocol over TCP, and the node GripperDriver of
-- wsg50_driver/src/main.cpp, which validates its parameters, initializes each connection, accepts
-- goals, executes them by commands of the transport, and reports the state.
--
-- The protocol: Wire/Bytes is the byte order of integers and floats (read_u16, read_u32,
-- decode_float, append_float; a float is its 32 bits), Wire/Crc the checksum crc16 with its
-- table, Wire/Frame encode_frame. Bytes are natural numbers, and each conversion to a fixed width
-- is written out.
--
-- The parser: Parser is Transport::parse_frames as a function of the receive buffer, the handler
-- being a parameter. The loop runs on fuel, one more than the buffer's length; each round that
-- goes on removes a byte, so this is enough (Parser/Rounds, Parser/Frames). Parser/Fragments,
-- Parser/RoundTrip and Parser/Sound hold its properties.
--
-- The device: Device has the constants, CommandReply, DeviceState, status_text and update_state;
-- Device/Telemetry is about the reports with floats. Times are in the clock's milliseconds, and
-- the reading of the clock is an argument.
--
-- The transport: Transport is the state of the class. A promise is a number, and the replies that
-- promises were set to are kept, so that setting one twice, which throws a std::future_error in
-- the source, is an outcome of the model (Base/Calls: a call returns, throws, or waits for a
-- further result of a system call). Transport/Requests has command, the failures and the
-- streaming requests; Transport/Link connect_socket, disconnect and send_all; Transport/Replies
-- handle_frame and expire_requests; Transport/Dispatch dispatch_requests; Transport/Worker
-- receive_available and run. The worker calls the parser with handle_frame as its handler, as the
-- class does. What socket, connect, poll, send and recv return is a script that the definitions
-- take as an argument.
--
-- Transport/Threads is the same class with its threads: the locked sections of command,
-- dispatch_requests, fail_all and handle_frame, the stores of connect_socket to the state and
-- then to connected_, those of disconnect and each fail_request are steps of their own, and what
-- a thread holds between them is part of the state, so that calls of command fall between any two
-- steps of the worker. The worker may make a step of run() whenever the code before it allows,
-- which covers the order of each round, with any results of the system calls;
-- Transport/Threads/Rounds and Transport/Threads/Runs set these steps beside the operations of
-- the other modules, and Transport/Threads/Refines beside run() as a whole;
-- Transport/Threads/Stays is about what no step takes back.
--
-- Transport/Invariant says what holds between the operations: the invariant counts, for each
-- promise made, the requests that hold it and the replies it was set to, orders the keys of the
-- map, and says what may wait without a connection. Its children relate the operations to it;
-- Transport/Invariant/Routing is about the request that a frame answers,
-- Transport/Invariant/Expiry about deadlines; Transport/Invariant/Receiving follows the bytes of
-- ::recv through the parser to handle_frame, and Transport/Invariant/Delivery a command through
-- one round of run() to the bytes of its reply; Transport/Invariant/Carries follows a property of
-- the commands from the queues to the bytes that are written. The modules named Examples run the
-- definitions on concrete inputs, of which the modules named Samples have those that several of
-- them share.
--
-- The node: Driver has the parameters and validate_parameters, over a record of the operations on
-- doubles that the node uses, which is a parameter of the model; Driver/Goals is which goals are
-- accepted, Driver/Motion the commands for the transport, motion_reached and
-- wait_for_settled_state, whose readings of the clock and of the state are a list.
-- Driver/Execution has execute_standard and execute_advanced as lists of what the thread does,
-- the cancellations, generations, replies and states that they read being given. Driver/Actions
-- has the threads of several goals: each access to a variable or a lock that they share is a step
-- (handle_standard_accepted, handle_advanced_accepted, the lock and the test at the start of the
-- execution, finish_motion), while the motion between that test and finish_motion, with its
-- waits, is one move, for Driver/Execution has what it does; the counter of the goals is below 2
-- ^ 64. home_service, which takes the same lock, has its steps there too; one call of it at a
-- time is in progress, and no goal is accepted meanwhile, for the node's callbacks are served one
-- after the other. Driver/Shutdown is the destructor, with stop() and the joins: each thread that
-- it joins is a number of commands that it has still to give, with a wait for the future of each,
-- and its steps interleave with those of Transport/Threads; the lock between the goals plays no
-- part there. Driver/Setup is what the constructor gives to the transport, and
-- initialize_connection with its thread; Driver/Setup/Threads has its stores one by one.
-- Driver/Setup/Defaults is about load_parameters. Driver/Services is the four services: what the
-- other threads do to the transport while a service waits for its future is a function that it
-- takes. Driver/Reports is publish_state and publish_diagnostics.
--
-- Driver/Node puts the parts together: its state has the worker with its transport, the
-- initialization, the goals of action_threads_ and, for the statements only, the services that
-- were called. A step is a round of run() or its end, a callback of an action server, a service
-- or a timer up to its wait for a future, a command of the initialization thread or of the thread
-- of a goal, with any replies and readings, the end of the initialization, or the destructor up
-- to its joins. Any of them may come next, so the runs of the source are among these.
-- Driver/Node/Permits is for what reason a command may be sent, Driver/Execution/Orders which
-- commands execute_standard and execute_advanced give, Driver/Node/Sends, Driver/Node/Quiet and
-- Driver/Node/Orderly follow the steps of the whole node.
--
-- Not modelled: the constructor's publishers with their topics and its log, the middleware that
-- calls the node back, the close of the file descriptor, the values of strerror other than as
-- given texts, the log, the ROS interfaces, launch files, message definitions, robot description
-- and build files.
pub mod Base
pub mod Wire
pub mod Parser
pub mod Device
pub mod Transport
pub mod Driver
