-- ===== src/Lib.antt =====
-- Verification of the EMS gateway firmware for the ESP8266.
--
-- The firmware joins a heating bus on the serial port to the network. serial/uart.c collects telegrams
-- in its interrupt handler, and hands each to serial/serbridge.c, which prints it on the console
-- (serial/console.c) and sends it to the TCP clients. What the clients send goes through a telnet state
-- machine to the UART. httpd/httpd.c serves web pages and JSON; its handlers show the console and the
-- debug log (user/log.c) and change the configuration (user/config.c), which lies in flash.
--
-- How the files correspond to the code:
--
--   Prelude, Prelude/*    lists, words, byte strings and the C library functions that the sources call
--   CharRing              the circular buffer that serial/console.c and user/log.c each declare:
--                         console_write, console_write_str, log_write; the statics are a record
--   CharRing/Reader       the body of ajaxConsole and ajaxLog, over the size and the escapes
--   Console, Log          the rest of serial/console.c and of user/log.c
--   Config                user/config.c over the flash functions of the SDK
--   Base64                base64_decode of httpd/base64.c
--   Httpd/Conn            the records of httpd/httpd.h
--   Httpd/Send            httpdSend and the response functions of httpd/httpd.c, jsonHeader of user/cgi.c
--   Httpd/Head            httpdGetHeader of httpd/httpd.c
--   Httpd/Dispatch        httpdProcessRequest of httpd/httpd.c over the handlers of the URL table
--   Httpd/Request         httpdParseHeader and the loop over the lines of the head in httpdRecvCb
--   Httpd/Receive         the rest of httpdRecvCb, byte by byte
--   Httpd/Pool            httpdFindConnData, httpdRetireConn and the other callbacks of httpd/httpd.c
--   Httpd/Mime            mimeTypes and httpdGetMimetype of httpd/httpd.c
--   Auth                  authBasic of httpd/auth.c
--   Httpd/Decode, Args    httpdHexVal, httpdUrlDecode and httpdFindArg of httpd/httpd.c
--   SerBridge/Telnet      telnetUnwrap of serial/serbridge.c; its effects are a list of calls
--   SerBridge/Slot        sendtxbuffer, espbuffsend and serbridgeSentCb for one connection
--   SerBridge/Pool        the connections of serial/serbridge.c with the reverse pointers of their
--                         espconns: serbridgeFindConnData, serbridgeRecvCb, SentCb, ReconCb, DisconCb
--                         and ConnectCb, and the part of serbridgeUartCb that sends to each connection
--   SerBridge/Telegram    _EMSRxBuf of user/ems.h; hexNipple and the text of serbridgeUartCb
--   TcpClient, Serial     serial/tcpclient.c for one channel: the callbacks, and what the serial port calls
--   Uart                  the interrupt handler and the task of serial/uart.c over the buffers of user/ems.c
--   Uart/Registers        the registers in serial/uart.c, over the macros of the SDK
--   EspFs                 espfs/espfs.c over the memory that the flash is mapped to; EspFs/Extract is
--                         espfs/espfstest/main.c
--   MkEspfs               espfs/mkespfsimage/main.c; a file is what handleFile writes for it, and
--                         MkEspfs/Options is the command line
--   Httpd/Files           cgiEspFsHook of httpd/httpdespfs.c, with the files that are open
--   CgiFlash              user/cgiflash.c; Partition has what is relied on of the flash, Chunks an upload
--   Wifi                  user/cgiwifi.c: the events; Scan has the search for access points, Address
--                         parse_ip, Info the pages that show the state, and Settings the handlers that change the
--                         settings with what the timers call
--   UserMain              the URL table of user/user_main.c with the handlers over the state of the whole
--                         firmware, and cgiMenu of user/cgi.c; Routes is which page serves a request, InStep
--                         what requests do to the configuration, and Start the steps of user_init
--   Tests                 the definitions and the theorems at concrete inputs
--
-- State is passed explicitly: a function that changes static variables or an object takes the record and
-- returns the new one. An int is its 32-bit pattern where the source compares or computes with signs,
-- with the wrap written out; other numbers are natural numbers. A C string is the list of bytes before
-- its terminator, and a buffer is the list of the bytes in use.
--
-- Fuel: the search of httpdFindArg takes one round for each byte of the line and one more, since each
-- round begins behind an ampersand. The loop of ajaxConsole and ajaxLog takes as many rounds as the
-- buffer has characters, since it passes no index twice. Decimal printing takes 10 rounds for an int.
-- The loop over the lines of a head takes at most one round for each byte, since a line has an end of
-- two. The loop of httpdGetHeader takes at most one round for each byte of the head, and the loop of authBasic
-- one for each user and one for the end of the list, which it may leave out.
--
-- The search of espFsOpen takes one round for each file of the image and one for its end, and the calls of
-- cgiEspFsHook are one for each 1024 bytes of the file and two more. The extractor's reads are one for each
-- 128 bytes and two more. The loop of parse_ip has the 32 rounds of the source. In UserMain
-- the rounds of the file system's search are given, and the state records whether one has not ended within them.
--
-- Parameters stand for what is not in the repository: the flash functions of the SDK with their
-- documented behaviour (Config/RoundTrip), LwIP's inet_chksum, the firmware size of the build, what
-- espconn_sent returns, the clock, the frequency of the UART, and the function that lists the users for
-- authBasic with the memory behind its buffer. The handlers of the URL table are a parameter of the
-- HTTP server, with the rest of the firmware as the state on which they work. The peer of a connection
-- is kept by the network stack. The compressor of zlib, and what stands on the stack in a buffer that
-- is not written, are parameters too, as are what printf shows for NULL and the memory behind
-- the table of the connection states and the buffer of a telegram. Flash leaves out the sectors in which the SDK keeps
-- its own parameters; of those the mode of the WiFi stands beside it, as the handlers set it. The build is that of
-- the Makefile, with CHANGE_TO_STA. The TCP client takes what os_malloc,
-- the name service, espconn_connect and espconn_sent return as arguments of each call; elsewhere
-- os_malloc is taken to succeed where the code takes it to.
--
-- Not modelled: debug messages, delays and heap figures (they change no state that the code reads), the
-- set-up of pins, the pages of user/cgitcp.c and user/cgipins.c and the LED of serial/serled.c, which are
-- compiled out, the Java program, the web pages and the Windows port of mmap. The
-- parts that PROJECT.json lists as not modelled are outside this library.
pub mod Prelude
pub mod CharRing
pub mod Config
pub mod Console
pub mod Log
pub mod Auth
pub mod Base64
pub mod SerBridge
pub mod TcpClient
pub mod Uart
pub mod EspFs
pub mod MkEspfs
pub mod CgiFlash
pub mod Wifi
pub mod UserMain
pub mod Tests
pub mod Httpd
