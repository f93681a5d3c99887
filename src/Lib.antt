-- ===== src/Lib.antt =====
-- The embedded systems runtime, modelled from its C sources and proved.
--
-- The program is a set of small systems components behind one command. A simulated target runs three
-- threads (a sensor, a processing worker and a watchdog) over a bounded queue, and a server answers
-- requests about it in a framed binary protocol. Firmware images are packed, checked and compared
-- by version. A shell parses command lines and keeps a table of its jobs.
--
-- The parts, and the files that model them:
--   protocol/embedded_protocol.c     Protocol/: Endian (byte order), Crc (mlrt_crc32 and its three
--                                    parts), Packet (mlrt_packet_encode, mlrt_packet_decode), Stream
--                                    (read_all, write_all, mlrt_packet_read_fd, _write_fd)
--   realtime/ring_buffer.c           Ring: ring_init, ring_push, ring_pop, ring_get_stats;
--                                    Ring/Wait: deadline_from_now, ring_wait_pop
--   target/target_core.c             Target: target_init, _start, _stop and one round of each
--                                    thread; Target/Threads: the rounds of all three in any
--                                    order; Target/Handle: mlrt_target_handle_packet
--   target/target_server.c           Target/Server: serve_client
--   target/target_client.c           Target/Client: read_status (print_status), corrupt_crc
--                                    (send_corrupt_crc)
--   firmware/image.c                 Firmware/: Header, Image (packing and checking), Policy
--   shell/jobs.c                     Shell/Jobs
--   shell/parser.c                   Shell/Parser
--   shell/shell.c                    Shell/History (history_add, _lookup, _expand, builtin_history),
--                                    Shell/Redirect (redirect_file, setup_command_fds),
--                                    Shell/Foreground (wait_foreground_job and
--                                    execute_external_pipeline), Shell/Interpreter and Shell/Line
--                                    (parse_job_id, run_builtin, shell_run_line), Shell/Remote
--                                    (shell_run_noninteractive)
--   network/protocol.c               Network: net_send_frame, net_recv_frame
--   firmware/nic_model.c             Nic: the network device, each call a step
--   allocator/allocator.c            Allocator: my_malloc, my_free, my_allocator_get_stats
--   elf/elf_parser.c                 Elf: the checks of elf_image_open; Elf/Names: the names;
--                                    Loader/Translate: elf_vaddr_to_offset
--   loader/loader.c                  Loader: map_one_segment and what it does to memory; Loader/Image:
--                                    loader_map_image, loader_unmap_all, loader_can_execute
--   projects/network-verification-lab/src/datapath.cpp
--                                    Datapath: the class Datapath; Datapath/Datagram: encode;
--                                    Datapath/Checksum: crc32
--   projects/ai-networking-benchmark-lab/src/transport.cpp
--                                    Transport: encode, read_all, read_frame; Transport/Serve:
--                                    write_all and the loop of serve_connection
-- Prelude holds what these share. A function of the C code keeps its name, less the prefix mlrt_;
-- what it changes through a pointer is a record that it takes and returns.
--
-- How the parts interact: Target holds a Ring, its server reads requests by Protocol/Stream, answers
-- them by Target/Handle and writes the responses by Protocol/Stream, while the threads of the target
-- make the rounds of Target/Threads; firmware images use the CRC of Protocol/Crc. A line of the shell is expanded by Shell/History, parsed by Shell/Parser, and run as a
-- builtin or as a pipeline whose job Shell/Jobs keeps. The loader takes an image that Elf has checked.
-- The datapath and the benchmark transport are programs of their own; they share the byte order of
-- Protocol/Endian and their CRC.
--
-- Conventions. Numbers are natural numbers, and a conversion to w bits is written out as `% 2 ^ w`.
-- A buffer is a list of bytes. Pointers are to live objects, so the tests for null pointers are not
-- there. A call that runs under a lock is one step; a round of a thread is one step, so the states
-- inside it are not seen by the others. read(2), write(2), waitpid(2) and the waits on a condition
-- variable are lists of the answers they give, one to a call; where a list ends, the call blocks,
-- and the result says so. The clock is a parameter `now`, which gives the successive readings in one
-- call; serve_client takes another for each request, and the rounds that the threads make until the
-- request is handled. The preprocessor's choice of an architecture, sscanf, strtol, strtoul and the decimal digits of a
-- number are parameters too.
--
-- Fuel: serve_client takes what happens beside each of its turns, and so needs one more than there are
-- requests, and the fuel of the loop of serve_connection is its turns; both are enough as their
-- theorems show. tokenize counts turns of its outer loop, and the length of the line is enough, which
-- is proved. All other loops are structural.
--
-- Not modelled: what only does input and output or calls the kernel (the command lines, the sockets,
-- the logger, the tracer, the event loop, the virtual UART, the demonstrations), the terminal and the
-- signal handlers of the shell, what the ELF parser prints, the other projects, and the code in
-- assembly and in other languages.
pub mod Prelude
pub mod Protocol
pub mod Ring
pub mod Target
pub mod Firmware
pub mod Shell
pub mod Network
pub mod Allocator
pub mod Elf
pub mod Loader
pub mod Datapath
pub mod Transport
pub mod Nic
