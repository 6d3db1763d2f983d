-- ===== src/Interface/Writing.antt =====
-- datagram.cpp: Datagram::write and Datagram::subscribe, through the interface that the socket is
-- bound to.
use pico_lan.Prelude.{ℕ, zero, suc, ◌+◌, ◌*◌, ◌/◌, ◌%◌, Bool, ◌==◌, if◌then◌else◌, slice}
use pico_lan.Etk.{Etk}
use pico_lan.Etk.Items.{append_all}
use pico_lan.Serialiser.Sender
use pico_lan.Serialiser.Pack.{Packet}
use pico_lan.Serialiser.Pack.Datagram.{DatagramPack}
use pico_lan.Interface.{Interface, port_of, send_packet}

abbrev pub chunk_sz : ℕ
chunk_sz = 58

module _ ⦃E : Etk⦄ where
  -- The packet that carries `n` bytes of `bytes` from index `k` on.
  abbrev pub chunk : ℕ → ℕ → ℕ → (ℕ → ℕ) → ℕ → ℕ → DatagramPack
  chunk address dest dest_port bytes k n = record {
    ttl = 6;
    source_addr = address;
    dest_addr = dest;
    port = dest_port;
    payload = append_all E.payload E.payload.empty (slice bytes k n);
  }

  -- `iface->flush()`.
  unfoldable pub flush : Interface → Interface
  flush i = record i { tx = Sender.flush i.tx }

  -- The loop over the full chunks, from chunk `i` on, with `n` rounds left.
  unfoldable pub write_chunks : ℕ → ℕ → ℕ → ℕ → (ℕ → ℕ) → Interface → Interface
  write_chunks zero i dest dest_port bytes iface = iface
  write_chunks (suc n) i dest dest_port bytes iface = write_chunks n (i + 1) dest dest_port bytes (
      send_packet
        (Packet.datagram (chunk iface.address dest dest_port bytes (i * chunk_sz) chunk_sz)) iface)

  -- Datagram::write(dest, dest_port, data, len), which returns Error::NONE.
  unfoldable pub write : ℕ → ℕ → (ℕ → ℕ) → ℕ → Interface → Interface
  unfolding write_chunks flush
  write dest dest_port bytes len iface =
      let chunks = len / chunk_sz in
      let remainder = len % chunk_sz in
      let sent = write_chunks chunks 0 dest dest_port bytes iface in
      flush (
        if remainder == 0
        then sent
        else send_packet
            (Packet.datagram
              (chunk sent.address dest dest_port bytes (chunks * chunk_sz) remainder))
            sent)

  -- Datagram::subscribe(sub) of the socket behind `l`; `unsubscribe` is `subscribe(false)`.
  unfoldable pub subscribe : ℕ → Bool → Interface → Interface
  unfolding send_packet flush
  subscribe l sub i = flush (
      send_packet
        (Packet.subscribe (record {
          ttl = 6;
          addr = i.address;
          port = port_of (i.heap l);
          subscribe = if sub then 1 else 0;
        }))
        i)

  unfoldable pub unsubscribe : ℕ → Interface → Interface
  unfolding subscribe
  unsubscribe l i = subscribe l Bool.false i

  -- Datagram::write(dest, dest_port, data) of a C string. etk::Rope::c_strlen is not in the repository:
  -- it is the parameter `c_strlen`, of the string and of a bound on its length.
  unfoldable pub write_string : ((ℕ → ℕ) → ℕ → ℕ) → ℕ → ℕ → (ℕ → ℕ) → Interface → Interface
  unfolding write
  write_string c_strlen dest dest_port text iface =
      let len = c_strlen text 1024 in write dest dest_port text len iface
