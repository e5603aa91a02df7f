-- ===== src/Lib.antt =====
-- The network programs of this repository: the on-demand routing of hw3 with its time service, the
-- address resolution and the tour of hw4, both ends of the file transfer of hw2, and the echo and
-- time services of Assignment1.
--
-- The programs and how they interact:
-- * hw3/odr.c runs on every host. It keeps a routing table and a buffer of the requests of local
--   clients (hw3/common.c), exchanges RREQ, RREP and payload frames with its neighbours, and talks
--   to the client (hw3/client.c) and the time server (hw3/server.c) of its host over local sockets.
-- * hw4/arp.c runs on every host too. Its clients ask it for the hardware address of an IP address;
--   it answers from its cache, or asks the network and keeps the client waiting.
-- * hw4/tour.c hands a packet with a list of hosts from host to host; each pings the one before.
-- * hw2/server.c sends a file word by word, with a window that grows with the acknowledgements and
--   falls back on a timeout (hw2/rtt.c) or on duplicates.
-- * hw2/client.c receives a file as numbered datagrams into a window of slots, acknowledges each
--   one, and a second thread prints the slots in order. The server first hands it a new port.
-- * Assignment1/code has a server with a thread for each client that gives back the lines that it
--   reads, and one that sends the time, and a client for each, started from a menu.
--
-- Which file models what:
-- * The folder Odr is hw3/odr.c and hw3/common.c. Odr/Types: the structs of hw3/common.h. Odr/Table:
--   the routing table. Odr/Buffer: the buffer. Odr/Send: send_packet, send_rreq, send_rrep,
--   send_payload, msg_send. Odr/Local: ip_to_vm and get_data_from_server. Odr/Process:
--   process_frame, a function for each branch. Odr/Loop: main. Odr/Boot: the start of main.
--   Odr/Neighbours: two hosts that exchange frames. Odr/Line: hosts in a line of any length, with
--   what goes from one end of it to the other.
-- * The module Interfaces has the loop of populate_server_details, for hw3/common.c and hw4/common.c.
-- * The module TimeServer has respond of hw3/server.c, set_ip of hw3/common.c, a round of
--   hw3/client.c.
-- * The folder Arp is hw4/arp.c. Arp/Types: hw4/arp.h. Arp/Cache: the operations on arp_cache.
--   Arp/Process: the handlers. Arp/Loop: boot and main of hw4/arp.c. Arp/Boot: boot with
--   populate_server_details of hw4/common.c. Arp/Areq: areq of hw4/common.c, the client's end.
-- * The module Tour is hw4/tour.c: recv_rt, send_rt, add_ip_to_ping, populate_route, main. Tour/Ping:
--   send_ping, set_icmp, send_ping_request, proc_v4.
-- * The folder Transfer is hw2. Transfer/Rtt: hw2/rtt.c as the sender uses it;
--   Transfer/Rtt/Estimators all of it. Transfer/Sender: send_file_data and receive_ack of
--   hw2/server.c. Transfer/Locality: check_addr_local of hw2/common.c. Transfer/Addresses:
--   get_addr_count, fill_addr_contents and the start of main of hw2/client.c. Transfer/Wire:
--   send_udp_data and recv_udp_data. Transfer/Receiver: the window, create_new_connection and
--   buffer_reader_thread of hw2/client.c. Transfer/Handover: the hand-over of the port by main
--   and udp_reliable_transfer of hw2/server.c to main of hw2/client.c. Transfer/Net: the two ends
--   with a network between them that loses, repeats and reorders; the phase of the client says
--   whether it still reads, has left its loop, or has made the last pass of main.
-- * The module Echo is the thread of Assignment1/code/tcpechotimesrv.c, echo_server of echo_cli.c and
--   the choice of tcpechotimecli.c. The module Daytime is the time thread and time_server of
--   time_cli.c.
-- * The folders below these files hold the proofs, named for what they are about. Base has what the
--   parts share: searches in lists, strings as bytes, decimal numbers. Tests has concrete runs.
--
-- How state and operations correspond: the globals of a process are one record (Node, Arp,
-- Receiver, Sender, Tour), a handler is a function from the record to a new one and the list of
-- what it sends, in the order of the calls, and the loop of main is a fold over a list of events.
-- The time, the answer of another process and the outcome of the random drop come with the event.
-- A result `none` stands for an access outside an array, where the C code has no defined
-- behaviour, or for the end of the program on a null pointer; an index of -1 is `none` too.
-- Printing is left out, except for what a client is for: the file data, the lines of the echo and
-- time services, the answers to pings.
--
-- Bounds and fuel: an `int` that is only set, copied, compared and incremented is a natural
-- number, so that the wrap-around of `int` after 2^31 steps is not modelled. `cwnd`, which
-- doubles with each acknowledgement, is one too: the source says nothing of a sender whose `cwnd`
-- passes INT_MAX, and Fits and Run of Transfer/Net are the steps and runs in which it does not.
-- The sizes are those of the source: 100 rows, 100 buffered requests, 40 cache entries. The loop
-- of update_expected_seq_num has as fuel one more than the number of slots: each round finds
-- another slot of a window in order. The decimal printer has its argument plus one. The echo
-- thread has one more than the bytes that it is to read, as no line is empty.
--
-- Parameters: inet_pton (Transfer/Locality), gethostbyname (populate_route) and gethostbyaddr
-- (Transfer/Addresses, Tour/Ping), which are not in the repository; Readline (Echo), in_cksum and
-- Host_serv (Tour/Ping) and Sock_ntop_host (Transfer/Addresses) of unpv13e; the operations on
-- floats (Transfer/Rtt/Estimators); how the machine lays out a word, and MAXLINE (Transfer/Wire).
-- The list of the interfaces is an argument.
--
-- Not modelled: the socket calls and their failures; a local message longer than its array; the
-- listing of the interfaces by the code of the course; the rounding of floats, so that the sender
-- takes the timeout that the estimators give as an argument; hw3/kdhw3, an earlier draft of hw3,
-- and hw4/submit_files, a copy of hw4; unpv13e, which is another project's library. The mutex of
-- the file transfer is taken to serialise its two threads. The client leaves its loop with the
-- mutex locked, so behind that there is only the last pass of main.
pub mod Base
pub mod Daytime
pub mod Echo
pub mod Interfaces
pub mod Odr
pub mod TimeServer
pub mod Arp
pub mod Tour
pub mod Transfer
pub mod Tests
