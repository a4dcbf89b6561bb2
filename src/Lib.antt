-- ===== src/Lib.antt =====
-- yass is a proxy: a client (src/cli) takes SOCKS4, SOCKS4a, SOCKS5 and HTTP requests on a local port
-- and carries each as a Shadowsocks stream, or over TLS, to a server (src/server) that connects to the
-- destination. Both sides share src/net: parsers for the request headers, buffers and a queue of
-- buffers between sockets, and the cipher of the stream, which stands on src/crypto.
--
-- Parts and files:
--   - IoQueue (src/net/io_queue.hpp): the ring of buffers between a reading and a writing socket.
--     `IoQueue` has the fields idx_, end_idx_ and queue_; each method is a function of its name. A slot
--     is an option, for a null or other pointer. Refine states when a queue holds a list; Enlarge,
--     Access, Bytes and Moves are the methods against the list; Wrap has the arithmetic of the indices.
--   - IoBuffer (src/net/io_buffer.cpp, io_buffer.hpp): `GrowableIOBuffer` as the record
--     `GrowableBuffer`, where pos is the place of the pointer data_ in the allocation. SetCapacity,
--     set_offset, appendBytesAtEnd and copyBuffer are set_capacity, set_offset, append_bytes_at_end and
--     copy_buffer; what realloc leaves in new memory is the argument `fill`.
--   - Address (src/net/socks5.hpp, ss.hpp): the address header, as the bytes of its struct, so that the
--     members of the union share their bytes.
--   - Socks5 (src/net/socks5_request.hpp, socks5_request_parser.hpp): `parse` of the request parser,
--     with Method for the method selection and Auth for user name and password. Parsing and Bounds have
--     what the request parser accepts and how far it reads; Reply is the reply of socks5.hpp.
--   - Socks4 (src/net/socks4_request.hpp, socks4_request_parser.hpp) and Shadowsocks
--     (src/net/ss_request.hpp, ss_request_parser.hpp): the other two request parsers, and the reply of
--     src/net/socks4.hpp.
--   - Crypto (src/crypto/crypter.hpp, aead_base_*.cpp, aead_evp_*.cpp): nonces, keys, and the packets
--     of the AEAD wrappers. BoringSSL is the parameter `Aead`, of which two things are relied on: what
--     was sealed opens again, and a tag has a fixed length. Plain is an instance.
--   - Hkdf (src/net/hmac_sha1.cpp, hkdf_sha1.cpp): the derivation of the session key. SHA-1 is a
--     parameter, as MD5 is in Cipher.Key.
--   - Cipher (src/net/cipher.cpp, cipher.hpp): chunk_encrypt_frame_aead and chunk_decrypt_frame_aead
--     are functions of these names; Session has the salt, set_key_aead, process_bytes and encrypt.
--     Growth, Encrypt, Failure, Decrypt and Frames are about one frame, Delivery and Stream about the
--     loop of process_bytes and a stream that comes in pieces, Salt and RoundTrip about its beginning;
--     Key is derive_key.
--   - Padding (src/net/padding.cpp): AddPadding and RemovePadding, with the padding's length as argument.
--   - Handshake (src/net/io_buffer.hpp, src/crypto/crypter_export.hpp): what the two handshakes share;
--     `View` is a GrowableIOBuffer as a reader has it. Views says what stands where in a view.
--   - Server (src/server/server_connection.cpp): the SOCKS handshake. `Task` is what the connection waits
--     for, each handler is a function of its name, and `step` runs the handler of the task on an event.
--     Requests and Messages have what the handlers take, Named what a SOCKS4a request comes to, Faults
--     where they fail; Gate, Gated and Relay are about an invariant of the steps: who gets to the
--     relay. Stream is the handshake of a Shadowsocks stream, with the decoder as an argument.
--   - Upstream (src/cli/cli_connection.cpp): the other end, the client's requests and how it reads the
--     responses. `upstream` is upstream_, with the empty buffers that keep the places of the requests
--     to come. Queue, Writes and Responses have the operations one by one, Reachable the steps in any
--     order; what the channel does with a write is a `Write`.
--   - Local (src/cli/cli_connection.cpp): the client's handshake with a local client. Handlers has the
--     handlers and commands, Reads and Replies their parts; what a handler starts is an `Effect`.
--     Greeting, Commands and Connects are about a method selection, the commands, and a request.
--   - Relay (src/server/server_connection.cpp): the loop of WriteUpstreamInPipe, from the client to the
--     destination, and what calls it. Transparent has the invariant, Loop the rounds, Calls a sequence of
--     calls. A read that fails ends the connection, and its bytes are not counted as received.
--   - SessionCache (src/net/ssl_client_session_cache.cpp): the sessions to resume, with the LRU map as the
--     interface `LruCache`. Entries is about one entry, Lookups about the cache.
--   - Exchange: the client and the server against each other; Rounds, Selects and Target are the rounds
--     of the exchange, Complete its end.
--   - Dns (src/net/dns_message*.hpp): `init` of the request, and `parse` of the response with Parser.
--     Labels is the request's name, Names a name there and back, Replies and Messages the answers,
--     Termination the loops.
--   - AddrInfo (src/net/dns_addrinfo_helper.cpp): the lists of addresses that the answers make.
--   - Resolver (src/net/dot_resolver.cpp, dot_request.cpp): names resolved over TLS. The parent has the
--     resolver and what its requests call back, Steps has AsyncResolve, DoRequest and the events; Valid,
--     Answers, Preserve, Events and Reachable are about its runs, Order about two answers, Stale about
--     what a late lookup leaves. Request is one request, Chunks and Resolves what it makes of a
--     response.
--   - Common: tests, lists, slices and memory for all of them.
-- How they interact: a connection reads into a GrowableIOBuffer, which a request parser or the cipher
-- reads; Cipher uses IoBuffer, Crypto and Hkdf as the source does; the plaintext that it delivers starts
-- with the header that Shadowsocks parses. Server uses the parsers and replies of Socks4, Socks5 and
-- Shadowsocks; Exchange uses Server and Upstream. A request of Resolver writes and reads the messages of
-- Dns and makes lists of AddrInfo of them, and the resolver joins the lists of two requests.
--
-- Conventions: numbers are natural numbers. A parser reads memory, a function from addresses to bytes:
-- the input is what lies from `begin` up to `end`, and a read behind `end` gives what memory holds there.
-- A failed CHECK or DCHECK, a null dereference and an access outside of an allocation are the result
-- `none`. Indices and lengths of type int are taken to be below 2 ^ 31: the DCHECK of
-- enlarge_queue_by_2x guards the ring's, and the callers' reads are of a few kilobytes. The packet
-- counter wraps at 2 ^ 64 and sums of sizes do.
--
-- Loops: byte_length goes round the ring once at most, so the vector's size is fuel enough; the loop of
-- process_bytes takes bytes in each round that goes on, so the chunk's size and one is; the scans of
-- SOCKS4 and the rounds of HKDF count down. The loop over labels of the DNS request takes a byte in each
-- round at least, so the name's length and one is enough. The loops over names of a DNS response have
-- fuel as an argument and say when it runs out, as one of them need not end. The theorems say that a
-- result is given, not only what it is like.
--
-- Not modelled: sockets, TLS, timers and the event loop (asio, BoringSSL, nghttp2), which appear as
-- the events of Server, Local and Resolver and the steps of Upstream; the relay from the destination back, that
-- of the client, and what encrypts on the way; redirected connections and the HTTP requests of local
-- clients beyond their destination; the HTTP parser, the requests that carry DNS messages over HTTPS
-- and the resolver on c-ares, the configuration, the graphical and mobile front ends, and the stream ciphers of a build
-- with mbedtls.
pub mod Common
pub mod IoQueue
pub mod IoBuffer
pub mod Address
pub mod Socks5
pub mod Socks4
pub mod Shadowsocks
pub mod Crypto
pub mod Hkdf
pub mod Cipher
pub mod Padding
pub mod Handshake
pub mod Server
pub mod Upstream
pub mod Exchange
pub mod Dns
pub mod Local
pub mod SessionCache
pub mod Relay
pub mod AddrInfo
pub mod Resolver
