-- ===== src/Lib.antt =====
-- The firmware of this repository measures post-quantum and classical signature schemes in mutual TLS
-- for MQTT on a microcontroller. It is an MQTT client (mqtt_client/) over one of two transports, plain
-- TCP or TLS; the signature schemes that the TLS library does not have are added in small files with
-- keys, signing and verification; a monitor measures heap and stack; a generator on the host (tools/)
-- makes the certificates and keys of the HAWK test PKI. These modules model the parts below. The
-- definitions have the names of the C functions, in lower case; a part of a function that stands in a
-- definition of its own says in its comment which part it is.
--
-- Files and what they model:
--   Common and Common/      shared names: numbers, lists, options, tests, bit masks
--   Transport               mqtt_client/tls_transport.h as an interface: `tls_write`, `tls_read`,
--                           `tls_close` and the clock, with the laws that a stream of bytes has
--   Mqtt and Mqtt/          mqtt_client/mqtt.c: RemLen (`encode_remlen`), Packet (the CONNECT and
--                           PUBLISH packets), Stream (`send_all`, `recv_byte`, `recv_remlen`, `drain`),
--                           Client (`mqtt_connect_internal` and its callers, `mqtt_publish_qos0`,
--                           `mqtt_disconnect`); Packet/Format is a reader of the packets that is
--                           independent of the code, RemLen has the length's format and what it
--                           forbids, Loopback is a transport for examples
--   Ring and Ring/          the receive ring of mqtt_client/plain_transport.c, which
--                           mqtt_client/tls_transport.c has too
--   Plain and Plain/        the rest of mqtt_client/plain_transport.c: the connection, lwIP's callbacks,
--                           `tls_read`, `tls_write`, `tls_close`; Delivery has what lwIP and the network
--                           promise, Stream the instance of Transport, Publishing the MQTT client
--                           over it, Connect `resolve_host` and `tls_connect_plain_attempt`, with
--                           the causes of a failure in Connect/Causes
--   Tls and Tls/            mqtt_client/tls_transport.c: Tls has wolfSSL as an interface, its two I/O
--                           callbacks and the instance of Transport; Connect has
--                           `tls_connect_common`, with the causes of a failure in
--                           Connect/Outcome/Causes; Steps is an induction over what a call of wolfSSL
--                           does, Waiting and Counters are about the times and the counts, Ending about
--                           the loops
--   Main and Main/          mqtt_client/main.c: Links (`bench_connect` for the two transports), Bench
--                           (`run_benchmark_attempt`, `run_handshake_benchmark`, `print_stat_row`), Start
--                           (`wifi_connect`, `sync_time_with_sntp`), Session (the publish loop),
--                           Discovery (`home_assistant_discovery_json`, `build_payload`),
--                           Firmware (`main`)
--   Bench and Bench/        bench.c: the cycle counter and `bench_run`; Driver has benchmark_main.c over the
--                           interface scheme.h, Adapter adapters/adapter_snova.c,
--                           adapters/adapter_wolfssl_rsa2048.c and randombytes.c, Verify
--                           snova_verify_main.c with primitive_memory_report.h
--   Double and Double/      floating-point numbers as an interface, with the loops over a column of them
--                           that bench.c and mqtt_client/main.c both have
--   Memory and Memory/      mqtt_client/runtime_memory.c: the heap monitor behind the allocator's
--                           wrappers, Stack (painting the free stack and scanning it), Result (the
--                           report of `runtime_memory_end`)
--   Keys and Keys/          mqtt_client/hawk512_tls.c, mqtt_client/mayo1_tls.c and
--                           mqtt_client/snova2454_tls.c: Keys has the code they share, Hawk512, Mayo1
--                           and Snova2454 have the sizes and what differs
--   Pki and Pki/            tools/gen_hawk_pki.c: Der (the writer of DER), Certificate (names, dates,
--                           extensions, certificates, private keys), Pem (`write_pem`), Generator (`main`);
--                           Der/Format is a reader of DER that is independent of the code,
--                           Certificate/Reader one of X.509, and Certificate/Chain says which certificates
--                           such a reader trusts
--
-- How they interact: Mqtt takes Transport as a parameter and its laws as an instance, and the ring is
-- the buffer behind `tls_read`. wolfSSL is a record of calls that ask for bytes through the callbacks of
-- Tls, so that what the callbacks keep every call keeps. Main takes a Link: a Transport with the call that
-- makes a connection, which Plain/Connect and Tls/Connect give. Keys imports what Pki writes: the same
-- key pair goes from the generator's private-key file into a client's key, and the unwrapping in Keys
-- reads the OCTET STRING that the DER writer makes.
--
-- State, numbers and errors: an operation takes the state and gives the state after it. Numbers of a
-- fixed width keep their wrap-around (`% 2 ^ 16` for the ring's `avail`, `% 2 ^ 32` for counters and
-- lengths). A pointer that may be NULL is an option; `die` of the generator is `none`. A buffer with its
-- length is one list of bytes.
--
-- Bounds and fuel: `encode_remlen` and `recv_remlen` run at most four rounds, as in the code; `send_all`
-- and `drain` run on as much fuel as there are bytes, which is enough since each round of theirs takes
-- at least one byte or ends; `tls_read` has a round for each of the 15000 milliseconds up to its deadline
-- and two more, and so have the two waits of a connection attempt for their 10000 and `wssl_recv`
-- for its 15000. The loop of the TLS handshake has a round for each of its 30 million microseconds and
-- for one millisecond more: a call of wolfSSL takes longer than a microsecond. `wifi_connect` has a round
-- for each half second of a minute and two more, `sync_time_with_sntp` one for each quarter. `bench_cycles`
-- has two rounds: SysTick does not wrap in both. The publish loop does not end by itself: it is run for
-- any number of rounds. The other loops are recursion on a list or on a count.
--
-- What is not modelled: wolfSSL, lwIP, the Wi-Fi driver and the signature schemes themselves
-- (parameters where they are called), the arithmetic of floating-point numbers (an interface), the
-- sensors of mqtt_client/main.c, `bench_init` and what bench.c, benchmark_main.c and
-- snova_verify_main.c print, the other adapters, tools/gen_hawk512_key.c, and the scripts.
pub mod Common
pub mod Transport
pub mod Ring
pub mod Memory
pub mod Pki
pub mod Mqtt
pub mod Keys
pub mod Plain
pub mod Tls
pub mod Main
pub mod Double
pub mod Bench
