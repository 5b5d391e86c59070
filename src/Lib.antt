-- ===== src/Lib.antt =====
-- The SSH and Telnet client mshell: parts of its crates ssh-core and store, and of the C
-- transport library under .patched-libssh2-sys/libssh2 that ssh-core is built on.
--
-- The crate ssh-core drives sessions, channels and files through the C library that the repository keeps,
-- patched, in .patched-libssh2-sys/libssh2/src; everything that goes over the wire is laid out and
-- taken apart there. The modules follow the C code from the bytes upwards, and then the crates:
--
-- - Prelude: the library names that the modules share, byte strings measured by native numbers.
-- - Wire: byte order and the writers of misc.c (`ntohu32` is `_libssh2_ntohu32`, and so on; the
--   prefix `_libssh2_` is left out everywhere). A writer that advances `unsigned char **buf` is a
--   function that appends to the bytes written so far.
-- - StringBuf: `struct string_buf` of misc.c and its readers. A reader takes the buffer, and returns
--   the value or a failure with the buffer moved. StringBuf.Spec has the parsers that it is proved to be.
-- - Base64: the encoder and the decoder of misc.c, with the sizes that they allocate.
-- - Quote: `shell_quotearg` of scp.c, against the way a shell reads a word (Quote.Shell).
-- - Kex: the agreement on methods of kex.c. Kex.NameList is the search in a comma-separated list,
--   Kex.Agree the choice for one purpose, Kex.Negotiate `kex_agree_methods` with the session that
--   it changes; Kex.Negotiate.Kexinit has the layout of the server's packet.
-- - Channel: `struct _LIBSSH2_CHANNEL` of channel.c. Channel.Window is the adjustment of the receive
--   window, Channel.Read and Channel.Write are `_libssh2_channel_read` and `_libssh2_channel_write`,
--   Channel.Ids the numbers of channels. The transport (transport.c) is a parameter: reading may
--   change the channel and its packets in any way, sending may end in any way.
-- - KnownHosts: knownhost.c, the collection of known hosts; KnownHosts itself has `knownhost_check`,
--   KnownHosts.Add `knownhost_add`, KnownHosts.Read `libssh2_knownhost_readline` with its parsers of
--   a line, KnownHosts.Write `knownhost_writeline`. The HMAC and the printing of the port are
--   parameters; a C string has no NUL in it.
-- - Userauth: keyboard-interactive authentication. Userauth itself decodes a request, as
--   userauth_kbd_packet.c does; Userauth.Interactive is `userauth_keyboard_interactive` of userauth.c.
--   What the transport sends and receives in each turn of its loop is a list, at the end of which the
--   loop is still at work; the callback is a parameter.
-- - Sftp: the attributes of files in sftp.c, written with Wire and read with StringBuf.
-- - Keepalive: keepalive.c, the clock of the keepalive messages. The interval is an `int`, kept as the
--   number below 2 ^ 32 with its bits.
-- - HostKeys: crates/ssh-core/src/host_key.rs, the store of host key fingerprints; HostKeys.Atomic is
--   `atomic_write`, HostKeys.Import the import of OpenSSH's known_hosts. A call is its whole section
--   under KNOWN_HOSTS_LOCK.
-- - Telnet: `try_read` of crates/ssh-core/src/telnet.rs. Its loop recurses on fuel, of which the length
--   of the data is enough.
-- - Jump: crates/ssh-core/src/jump.rs, the chain of jump hosts, on fuel that a theorem bounds.
-- - Text: the functions on `str` of Rust's standard library, on lists of code points.
-- - SshConfig: crates/ssh-core/src/ssh_config.rs. SshConfig.Parse is the parser, each nested Include a
--   unit of fuel, SshConfig.Layout the ways to write a line, SshConfig.Connections what is imported.
-- - Tunnel: crates/ssh-core/src/tunnel.rs. Tunnel.Socks is `socks5_handshake` on the bytes that a client
--   sends, Tunnel.Relay is `relay_bidirectional` over any outcomes of its reads and writes.
-- - Files: crates/ssh-core/src/sftp.rs. Files itself has the names of entries and their check,
--   Files.Copy the loops that copy a file, Files.Download `collect_remote` and `download_dir`. The
--   server, the local disk and the cancel flag are a world that each call may change; what is done
--   is recorded in a trace. Files.Paths says where a path leads; symbolic links are not followed.
-- - Store: crates/store/src/connections.rs, the saved connections; Store.Secrets is the check that
--   keeps passwords out of the file. Replacing the file is one step.
--
-- A byte is a natural number; that it is below 256 is a hypothesis where it matters. An unsigned
-- integer keeps its wrap-around (`% 2 ^ 32`). Other loops over strings and lists are
-- structural recursion, so no fuel is needed. Memory allocation is a parameter that says which sizes succeed.
-- The methods' tables and names are parameters too, since they depend on the build.
--
-- Not modelled: the crypto backends and ciphers, the encrypted transport, sockets, the allocation
-- and release of structures, tracing; the rest of the Rust crates and the user interface.
pub mod Base64
pub mod Channel
pub mod Files
pub mod HostKeys
pub mod Jump
pub mod Keepalive
pub mod Kex
pub mod KnownHosts
pub mod Prelude
pub mod Quote
pub mod Sftp
pub mod SshConfig
pub mod Store
pub mod StringBuf
pub mod Telnet
pub mod Text
pub mod Tunnel
pub mod Userauth
pub mod Wire
