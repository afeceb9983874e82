-- ===== src/Lib.antt =====
-- The firmware of the SN110 gateway, which moves DMX512 frames between two serial ports and the
-- network protocols sACN, Art-Net and ShowNet.
--
-- Parts, and how they interact. A protocol receiver turns a datagram into a packet; the daemon's
-- handlers merge packets into one output frame for each port; the output cycle writes fresh frames to
-- the devices and blacks out a port whose source is silent; the input cycle reads devices and sends
-- what it reads as sACN. The configuration comes from a file, which the form of a web page changes.
-- One iteration of the event loop polls the receivers and runs both cycles.
--
-- Files:
--   Base       bytes, checked arrays (load, store, memcpy, memcmp), ints, lists, Boolean tests
--   Common     src/common.h: constants, dmx_frame_t, node_config_t
--   Text       src/oabi/minilib.c: comparing, scanning and printing of strings and numbers; Format for
--              vsnprintf, File for fgets, fwrite and fclose on the buffer of a file, Move for memmove
--   Config     src/config/config.c: config_defaults, config_load; Value for the parsers and names;
--              Save for format_key, config_save and config_save_strand; Ifup for
--              config_generate_ifup
--   Cgi        src/cgi/cgi_parse.h: url_decode, parse_formdata; src/cgi/cgi_config.c: Html and Page for
--              what emit_html_form and the answer to a POST print, Request for main
--   Thread     src/oabi/minithread.c: pthread_create, with malloc of src/oabi/minilib.c; Mutex for the
--              mutex, as a step relation
--   Dmx        src/dmx/dmx_mock.c: the devices of a host build
--   Sacn       src/sacn: Offset and Sacn for sacn_internal.h and sacn.h, Rx for sacn.c (sacn_parse,
--              sacn_receive), Tx for sacn_tx.c (sacn_tx_init, sacn_tx_build_packet, sacn_tx_send)
--   Artnet     src/artnet: artnet_receive, artnet_send_poll_reply
--   Shownet    src/shownet: shownet_receive, shownet_decode_rle
--   Gateway    src/main.c: the daemon's state; Handlers (handle_*_packet, signal_handler), Output
--              (dmx_tx_write, dmx_output_cycle), Input (dmx_input_cycle), Loop (main),
--              Sockets (sacn_init, artnet_init, shownet_init, the cleanups, the end of main)
-- Child modules hold the proofs, named for what they show; the Tests modules apply the theorems to
-- concrete data.
--
-- Conventions. A C array is a function of the index, of which every access names the size: an access
-- out of bounds is a fault, `none`, and a run that gives `some` has none. uint8_t, uint16_t and
-- uint32_t values are natural numbers with the wrap-around written out where the code computes; an
-- int that can be negative is an ℤ. Counters that are only logged are not bounded. A store is a record
-- that is passed on; a field called `data` in C is `channels` or `dmx_data`. The answers of the system
-- (clock, open, read, sendto) are an argument, `Env`, as the k-th answer of each call, and what recv
-- gave is an argument of the receivers. memcpy, memset and strncpy are the loops of
-- src/oabi/minilib.c in closed form. In Text, Config and Cgi a C string is the list of its bytes, and
-- a file is its contents, and a file that is written holds what the writes gave. What config_load reads
-- is taken to have no NUL byte; what config_save reads ends at the first one, as in the code.
--
-- Fuel. shownet_decode_rle runs on one round more than the encoded length, and every round reads a
-- byte at least; the theorem on it shows that this is enough. The loops of config_load,
-- _config_save_internal and parse_formdata have as many rounds as the text has characters, and every
-- round takes one at least. All other loops run over the ports, a list, or the room in a buffer.
--
-- Not modelled: the log and the debug files with their readings of the clock, the pid file; the device
-- access of src/dmx/dmx_real.c, whose results are answers of the system; the rest of
-- src/oabi/minilib.c, the system calls and headers of src/oabi.
pub mod Base
pub mod Common
pub mod Text
pub mod Config
pub mod Cgi
pub mod Thread
pub mod Dmx
pub mod Sacn
pub mod Artnet
pub mod Shownet
pub mod Gateway
