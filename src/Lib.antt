-- ===== src/Lib.antt =====
-- A verification library of the repository: the C programs of the course, one module tree for each.
--
-- WebSocket models the echo server of 2.1高性能网络设计专栏-网络编程 (4小节)/2.1.4_reactor_webserver/websocket(补充):
-- `Frame` is demask, decode_packet and encode_packet of server.c, `Handshake` is readline,
-- base64_encode and handshake, `Server` is ws_request and ws_response, `Conn` is struct conn of
-- server.h, and `Reactor` is event_register, the three callbacks and the event loop of reactor.c. A
-- buffer is a list of bytes and an access outside it is the value `none` or `fault`. The handshake's
-- loop takes as many rounds as the text has bytes and one more. SHA1 and the base64 BIO of OpenSSL
-- are parameters; what the kernel answers is an argument, and the system calls that the code makes
-- are a list in the state.
--
-- Dll models the doubly linked lists that the macros LIST_INSERT and LIST_REMOVE of Linux入门环境编程
-- (contact.c, 26Alpha_contact.c, threadpool.c) keep in a heap of nodes, and `Chain` says which
-- sequence such a list stands for.
--
-- Contact models Linux入门环境编程/实现通讯录（结构体）/contact.c: the interface layer and the entries of the menu
-- in Contact.antt, the parser of a line in `Token`, the files in `File`; `Entries` relates the list
-- in memory to a list of persons. Words typed, answers of malloc and the file are arguments. A
-- search has one round more than the count of the book, and the loop of load_file one more than the
-- file has bytes.
--
-- Alpha models Linux入门环境编程/实现通讯录（结构体）/homework_按照首字母/26Alpha_contact.c, the same book with a list
-- for each initial letter, and `Index` says which persons stand in which list.
--
-- Http models the response of 2.1高性能网络设计专栏-网络编程 (4小节)/2.1.4_reactor_webserver/webserver_03png.c and
-- the callbacks of the reactor.c beside it: a status of 0, 1 or 2 says what the next call of send_cb
-- does. `Reactor` is the table of connections and the event loop, with its listeners, and
-- `Reactor.Responses` says how far the response of each connection is.
--
-- Threads models Linux入门环境编程/并发下的技术方案（锁）/线程池/threadpool.c: Threads.antt has its linked lists,
-- `Create` nThreadPoolCreate, and `Wakeups` the threads, with what is done under the pool's lock, a
-- signal and a broadcast as one step each; `Heap` relates the two views of a worker's turn.
--
-- TcpServer models the servers of Linux入门环境编程: 百万并发的服务器/tcp_Server.c, TCP服务器/tcp_epoll.c and
-- tcp_onebyone.c. `Drain` is about the receiving loops, whose fuel is more than the answers of recv
-- that keep a loop going, `Serves` about the events and `Listeners` about the listeners. The sockets
-- and recv are parameters; what recv is documented to do is the record `Receives`.
--
-- Pool models Linux入门环境编程/数据库mysql项目实战/mysql_conn_pool/mysql_conn_pool.c, and `Leases` the clients
-- around it. Each operation holds the pool's lock and is one step.
--
-- Dns models Linux入门环境编程/DNS协议与请求/dns.c: Dns.antt has the names and the query, `Response` the parser
-- of the answers. The rounds of dns_parse_name are counted by an argument; a name takes one for each
-- of its labels and pointers and one for its end.
--
-- Peer models 2.2高性能网络设计专栏-网络原理 (2小节)/2.2.1_homework_tcp_p2p(ChatGPT版)/2.2.1_tcp_p2p.c: `Outbuf` is
-- outbuf_t, `Connect` the first phase of main with the interest list of epoll, and `Chat` the
-- second. The lists of waits say what epoll_wait and the other calls answer; a loop that is not over
-- behind the last wait given is said to wait.
--
-- EchoReactor models 2.1高性能网络设计专栏-网络编程 (4小节)/2.1.3_reactor_01.c: its table of connections is a
-- function of the descriptor, and what accept, recv and send answer stands in the events.
-- `Connections` describes one connection by itself, and `Echo` relates the two.
--
-- Poll models 2.1高性能网络设计专栏-网络编程 (4小节)/2.1.2_poll.c: a round is what one turn of its loop does, with
-- what the calls answer, and `Rounds` is about one client in it. There, in EchoReactor, Http and
-- WebSocket, a buffer that is printed with %s must have a NUL: one that is full without it is a fault.
--
-- HttpClient models Linux入门环境编程/http客户端请求/http.c: the request and the loop over the pieces of the
-- response, as many as are given; the resolver and the sockets enter by what they answer.
--
-- Images models Linux入门环境编程/数据库mysql项目实战/threadpool+connpool: the pool of threads, the pool of
-- connections and the tasks that need both. Its schedule is a list of moves of main and of the
-- workers, each what is done under one lock; `Slots` is about the connections, `Tasks` says what the
-- state keeps, `Turns` is about one turn of a worker and `Runs` about a schedule.
--
-- Kcp models 2.2高性能网络设计专栏-网络原理 (2小节)/2.2.3-udp-kcp-quic(示例版)/server.c. The functions of ikcp.c are
-- the parameter `KcpOps`, and what ikcp.c documents of them is the record `KcpLaws` of `Order`. The
-- loop goes as far as the list of its waits.
--
-- Uring models 2.5高性能网络设计专栏-异步io机制 io_uring
-- (3小节)/2.5.1-io_uring_server和NetAssist_client/uring_tcp_server.c: main's loop over the two queues,
-- a step at a time, `Requests` and `Steps` count its requests, and `Crosstalk` follows two clients.
-- The kernel's steps between them are not code of the repository: `carry_out` says what accept, recv
-- and send are documented to do, `FitsEvent` which answer fits which request, and any request that
-- runs may be carried out next.
--
-- Counters models the programs beside 线程池 in Linux入门环境编程/并发下的技术方案（锁）: Atomic.c, CAS.c and
-- MutexLock.c, whose loop SpinLock.c shares. A schedule, a list of threads, says which goes next,
-- and a run is as long as its schedule; a step is what the hardware does at once. CAS is modelled by
-- the operands that its instruction names.
--
-- Prelude holds what the parts share: tests on numbers, lists, bytes, C buffers, C strings,
-- integers.
--
-- Not modelled: printing, the sockets' setup, the statistics of accept_cb, the main loop of the
-- menu, dns_client_commit, which is the socket calls around the functions of dns.c, and KCP's
-- ikcp.c, which is a copy of another project's library; nor the other programs: the KCP client and
-- sessions, the echo reactor on twenty ports, the web servers that answer in one step, the clients
-- that only connect, and the MySQL programs, which are calls of their libraries in sequence.
pub mod Prelude
pub mod WebSocket
pub mod Dll
pub mod Contact
pub mod Poll
pub mod Pool
pub mod Dns
pub mod Alpha
pub mod Http
pub mod TcpServer
pub mod Threads
pub mod Kcp
pub mod Peer
pub mod Uring
pub mod Counters
pub mod EchoReactor
pub mod Images
pub mod HttpClient
