-- ===== src/Lib.antt =====
-- Redes-Hamelin: the reliable file transfer of TP 1 RDTP, over UDP, and the NAT router of
-- TP 2 ARP-NAT.
--
-- A client uploads or downloads one file. Both ends run a Protocol that holds a state: a
-- synchronisation state, a FlowState, a FinState, a HaltState. A FlowState cuts the file into chunks
-- and sends them in numbered segments, by stop and wait or by selective repeat; the other FlowState
-- acknowledges, buffers and writes them. A Receiver thread puts what arrives on a queue, a timer
-- thread puts the timeouts on the same queue, and the state takes one event after another from it.
-- So every method of a state runs alone, and is a function from state to state here.
--
-- The parts, and where they are modelled (paths below TP 1 RDTP/src/lib):
-- * segment/segment.py is Segment: the record, the checksum, toBytes and fromBytes. Segment.Checksum
--   and Segment.Codec have their laws. The sequence number is an unbounded int until it is written.
-- * segment/segment_service.py and the client's and the server's subclass are Service, Service.Client
--   and Service.Server: the makers and readers of segments. Text has the UTF-8 and big-endian
--   conversions that they use of Python.
-- * event/ is Event; time/busy_wait_timer.py and utils/list.py are Timer, with time as an argument.
-- * state/state_context.py, state/protocol_state.py and protocol/sender.py are Context: what a state
--   changes outside itself. The socket is the list of datagrams handed to it.
-- * protocol/receiver.py is Receiver: what becomes of each datagram.
-- * file_manager/file_writer.py is Files.Writer and file_reader.py is Files.Reader: a file is the list
--   of its bytes, as a reader finds it after the writer has closed.
-- * file_manager/file_manager.py and utils/atomic_int.py are Files.Manager: the tables of who reads and
--   who writes. Files.Manager.Lock has the lock on names that they stand for. The path of a name is a
--   parameter.
-- * state/sync_state_client.py and sync_state_server.py are Sync.Client and Sync.Server, each sendFile
--   and downloadFile cut at ctx.get().
-- * server/ and protocol/acceptor_protocol.py, connector_protocol.py and disconnector_protocol.py are
--   Server, Server.Acceptor and Server.Disconnector. The map of protocols holds the contexts that the
--   threads share with it. Server.Handshake, Server.Download and Server.Farewell put client and server
--   together, after Server.Uploading and Server.Downloading with the single steps.
-- * state/flow_state.py and state/flow_state_factoy.py are Flow, Flow.Sender (sendFile) and
--   Flow.Receiver (downloadFile). Both loops block in ctx.get(); they are cut there, so that one
--   function leads from an event to the next get. An exception keeps the state that it leaves.
-- * state/fin_state.py is Fin, cut at ctx.get() too; time/timer.py, which only tests use, is
--   Timer.Sleeping.
-- * Transfer puts a sender and a receiver on a network that may lose, repeat, delay and reorder
--   what either has sent, and aborts: a step relation, and the states reachable by it. A timeout
--   comes from the sender's timer, which loses it, at any time after it was scheduled; one that was
--   cancelled may still come late. Transfer.Armed has the timeouts of the packets in flight;
--   Transfer.Replying and Transfer.Liveness follow a round of timeout, packet and acknowledgement.
--   recvFrom cuts what is longer than 1400 bytes: only datagrams that it does not cut are delivered
--   there, and the reader's chunks make no others. Every segment that is read is delivered there:
--   Receiver has the thread's own loop, whose comparison of checksums is not repeated.
--
-- Below TP 2 ARP-NAT/pox/ext/protorouter_lib, managers/nat_manager.py and models/nat_entry.py are
-- Router.NatManager and Router.NatEntry: the entries are objects that pending packets share with the
-- table, so they lie in a store. managers/arp_manager.py and the other models are Router.ArpManager.
-- Times there are nanoseconds, and IPAddr.inNetwork of POX is a parameter. protorouter.py is
-- Router.ProtoRouter and openflow_sender.py Router.OpenFlow: the handlers of the packets that POX has
-- parsed, and the messages to the switch as data.
--
-- Base has the shared helpers: Boolean tests, lists, results and dicts. Tests runs small examples.
--
-- Fuel: makeWindow has as much as the window has places, each packet taking one; slide as much as
-- there are numbers between base and next; drain as much as the buffer has segments;
-- split as much as there are bytes. That this is
-- enough is part of the proofs in Flow.Sender, Flow.Receiver and Files.Reader. Flow.Loops has the
-- loops of flow_state.py without fuel, by their conditions and bodies.
--
-- Not modelled: the loop of Protocol.sendFile and downloadFile over the states, which the handlers'
-- threads run; the threads themselves, sockets' timeouts, the command line and the logs; what POX does
-- to parse and pack a packet. TP 2 ARP-NAT/pox/pox is a copy of a third-party platform. Damage to
-- datagrams is not a step of Transfer: the program does not detect it.
pub mod Base
pub mod Segment
pub mod Text
pub mod Service
pub mod Sync
pub mod Server
pub mod Event
pub mod Timer
pub mod Context
pub mod Files
pub mod Flow
pub mod Transfer
pub mod Receiver
pub mod Fin
pub mod Router
pub mod Tests
