-- ===== src/Lib.antt =====
-- Verification of ac-dc, a receiver of Apple's Handoff clipboard and AirDrop-compatible transfers.
--
-- The program finds Apple devices over Bluetooth and AWDL. Over the Companion link it runs
-- Pair-Verify with a device, then exchanges OPACK values over an encrypted channel to fetch the
-- clipboard; a one-time key transfer brings it the keys from another machine; and it receives
-- archives over HTTPS and unpacks them. A daemon owns the receiver and takes requests. Each part stands in modules of its own:
--
--   Opack      src/opack.rs. Opack has `Value` and its accessors, Opack/Encode `encode_into` and
--              what it calls, Opack/Equality the derived `PartialEq`, and Opack/Decode `Decoder`
--              with `parse`. `parse` recurses through its loops, so it takes fuel, which bounds
--              the depth of calls: 3 units for each byte of input and 2 more. Opack/Terminates
--              and Opack/Total are about any input, Opack/RoundTrip about what `encode` writes;
--              the modules beside them carry their lemmas.
--   Tlv8       src/tlv8.rs, all of it. The decoder's loop has the length of its data as fuel,
--              and takes two bytes a round.
--   Companion  src/companion.rs and src/companion_client.rs: packets and pairing data (Companion,
--              Companion/Packets, Companion/Pairing), the encrypted channel (Companion/Channel,
--              Companion/Nonces, Companion/LockStep), Pair-Verify (Companion/PairVerify,
--              Companion/Messages, Companion/Agreement, Companion/Authentic), values over the
--              channel (Companion/Session), the client's session (Companion/Client) and the
--              clipboard's payloads (Companion/Clipboard).
--              Pairing data are TLV8 items in an OPACK dictionary.
--   Transfer   src/transfer.rs: the frames of the key transfer and their reassembly, the session
--              key, the security code and the sealed payload (Transfer/Sealing).
--   Airdrop    src/airdrop/storage.rs: `relative` (Airdrop/Paths), the headers of an archive's
--              entries (Airdrop/Cpio), what is done with an entry (Airdrop/Staging), the loop of
--              `receive_cancel` (Airdrop/Extract), `decoded` (Airdrop/DvZip) and the publication of
--              the staged items (Airdrop/Publish). src/airdrop/outgoing.rs: the sender's archive
--              (Airdrop/Outgoing) and its blocks (Airdrop/DvZip). src/airdrop/http.rs: requests and
--              responses (Airdrop/Http). src/airdrop/mod.rs: the grants of
--              accepted questions in `connection` (Airdrop/Grants, Airdrop/GrantSafety).
--              The loop over entries has the code's 65536 rounds; the loops over blocks, header
--              lines and chunks have the length of their input as fuel, or one more, since each
--              round takes a byte at least; publication takes its fuel as an argument, and the
--              number of names in the directory, with one more, is enough.
--              The other modules carry the proofs: Airdrop/Headers and Airdrop/Listing (entries
--              that were written, read back), Airdrop/SentTree and Airdrop/Blocks (what the sender
--              writes), Airdrop/Delivery (sender and receiver together), Airdrop/SafeNames and
--              Airdrop/PathSafety (paths), Airdrop/Outcomes, Airdrop/AnyArchive and Airdrop/Disk (any
--              archive, with or without success), Airdrop/Steps and Airdrop/Limits (a success), Airdrop/Names (publication), Airdrop/HttpBodies and
--              Airdrop/HttpLimits (requests).
--   Gcm        src/gcm.rs, and the check of keys of src/keystore.rs; Gcm/Opening has the proofs.
--   Advert     src/advert.rs: the Handoff advertisement and its payload.
--   Daemon     src/daemon.rs: the daemon's state, its operations and the steps of the task that it
--              spawns, each under the lock (Daemon/Phases, Daemon/Decisions). A task that was aborted may
--              still run until it waits next, and one may panic, so that steps come in any order.
--   Examples   tests, and the results at concrete inputs, over primitives that hide nothing.
--
-- How the code is read. Bytes are natural numbers, and results that need them below 256 say so.
-- A `u64` or `u16` keeps its wrap-around or its checked addition. A method on `&mut self` takes the
-- state and returns the new one; Pair-Verify returns it with a failure too, since a failure can
-- leave the ephemeral secret consumed, and extraction returns the staging directory with a failure, as it
-- is before the directory is removed. `anyhow` errors are the constructors of an `Error` for
-- each part. A stream is the bytes written and not yet read. Bounded
-- sizes (4 MiB of OPACK, 65536 objects, 64 levels, 16 MiB of budget, packets of 4 MiB, names of
-- 4096 bytes) are the code's own.
--
-- Hashing, HKDF, ChaCha20-Poly1305, X25519 and Ed25519 come from other crates: Companion/Crypto
-- takes them as a record, and `IsLawful` holds what the crates document of them. So do Gcm for the AES
-- ciphers and GHASH, Airdrop/DvZip for the compression of `flate2`, Airdrop/Staging and
-- Airdrop/Publish for the calls of the file system. Random nonces and ephemeral secrets are
-- arguments. Texts are Unicode scalar values (Prelude/Scalars has their UTF-8).
--
-- Not modelled: sockets, timeouts and logging; JSON and property lists; Bluetooth, mDNS and child
-- processes; the user interface; cancellation, and files that change while they are archived; the rest
-- of src/airdrop/; the reading of the key store; the daemon's radio and socket.
pub mod Prelude
pub mod Opack
pub mod Tlv8
pub mod Transfer
pub mod Companion
pub mod Airdrop
pub mod Advert
pub mod Gcm
pub mod Daemon
pub mod Examples
