-- ===== src/Interface/Bursts/Frames.antt =====
-- The packets of one burst: what the loop that sends them puts on the line.
use pico_lan.Prelude.{
  ℕ, zero, suc, ◌+◌, ◌≡◌, refl, sym, ap, ap₂, ◌∙◌, some, List, [], ◌∷◌, ◌++◌, append-nil,
  append_assoc, u8, update, slice, ◌>>=◌, arith,
}
use pico_lan.Etk.{Etk}
use pico_lan.Serialiser.Pack.{Packet}
use pico_lan.Serialiser.Wire.{send-Sends}
use pico_lan.Socket.{SocketStream, msg_data}
use pico_lan.Interface.{Interface, AnySocket, send_packet, read}
use pico_lan.Interface.Hearing.{wire, carrying}
use pico_lan.Interface.Handshake.Messages.{Has}
use pico_lan.Interface.Bursts.{Burst, Sending, send_frame, send_frames}
use pico_lan.Interface.Bursts.Positions.{part, pos_after, tuples_after}

module _ ⦃E : Etk⦄ where
  -- The packet with index `i` of a burst behind the number `q`, which starts at position `p`.
  abbrev pub data_bytes : (ℕ → ℕ) → ℕ → ℕ → ℕ → ℕ → List ℕ
  data_bytes bytes len q i p = msg_data ∷ u8 (q + (i + 1)) ∷ slice bytes p (part len p)

  abbrev pub data_pack : ℕ → SocketStream → (ℕ → ℕ) → ℕ → ℕ → ℕ → Packet
  data_pack address c bytes len i p =
      Packet.datagram
        (carrying address c.remote c.remote_port (data_bytes bytes len c.sequence_number i p))

  -- What `k` packets from index `i` on put on the line.
  abbrev pub burst_frames : ℕ → SocketStream → (ℕ → ℕ) → ℕ → ℕ → ℕ → ℕ → List ℕ
  burst_frames address c bytes len zero i p = []
  burst_frames address c bytes len (suc k) i p =
      wire (data_pack address c bytes len i p)
      ++ burst_frames address c bytes len k (i + 1) (p + part len p)

  abbrev pub final_after : ℕ → ℕ → ℕ → ℕ → ℕ
  final_after q zero i f = f
  final_after q (suc k) i f = final_after q k (i + 1) (u8 (q + (i + 1)))

  pub final_after-last : (q k i f : ℕ) → final_after q (suc k) i f ≡ u8 (q + (i + suc k))
  final_after-last q zero i f = refl
  final_after-last q (suc k) i f =
      final_after-last q k (i + 1) (u8 (q + (i + 1))) ∙ ap u8 (omega arith)

  send_packet-Has :
      (p : Packet) (i : Interface) (l : ℕ) (s : AnySocket) → Has i l s → Has (send_packet p i) l s
  unfolding send_packet
  send_packet-Has p i l s h = record {
    bound = record {
      front = h.bound.front;
      back = h.bound.back;
      listed = h.bound.listed;
      none_before = h.bound.none_before;
      none_behind = h.bound.none_behind;
    };
    steady = h.steady;
    there = h.there;
  }

  -- What the loop over `k` packets from index `i` on leaves, when nothing arrives meanwhile.
  pub record Sent (env : Burst) (l len k i : ℕ) (bytes : ℕ → ℕ) (c : SocketStream) (w : Sending)
      : Type 0 where
    pub after : Sending
    pub runs : send_frames env l bytes len k i w ≡ some after
    pub has : Has after.iface l (AnySocket.client c)
    pub line :
        after.iface.tx.sent
        ≡ w.iface.tx.sent ++ burst_frames w.iface.address c bytes len k i w.bytes_pos
    pub here : after.iface.address ≡ w.iface.address
    pub moved : after.bytes_pos ≡ pos_after len k w.bytes_pos
    pub tuples :
        after.frame_byte_pos ≡ tuples_after len c.sequence_number k i w.bytes_pos w.frame_byte_pos
    pub final : after.final_seq ≡ final_after c.sequence_number k i w.final_seq

  -- One round.
  abbrev sent_one : ℕ → ℕ → (ℕ → ℕ) → SocketStream → Sending → Sending
  sent_one len i bytes c w = record w {
    iface = send_packet (data_pack w.iface.address c bytes len i w.bytes_pos) w.iface;
    bytes_pos = w.bytes_pos + part len w.bytes_pos;
    frame_byte_pos = update w.frame_byte_pos i (record {
      seq = u8 (c.sequence_number + (i + 1));
      pos = w.bytes_pos + part len w.bytes_pos;
    });
    final_seq = u8 (c.sequence_number + (i + 1));
  }

  send_frame-one :
      (env : Burst) (l len i : ℕ) (bytes : ℕ → ℕ) (c : SocketStream) (w : Sending)
      → Has w.iface l (AnySocket.client c)
      → env.arrived i ≡ []
      → send_frame env l bytes len i w ≡ some (sent_one len i bytes c w)
  unfolding send_frame read
  send_frame-one env l len i bytes c w h none = rw h.there (rw none refl)

  sent_one-line :
      (len i : ℕ) (bytes : ℕ → ℕ) (c : SocketStream) (w : Sending)
      → ((sent_one len i bytes c w).iface.tx.sent
          ≡ w.iface.tx.sent ++ wire (data_pack w.iface.address c bytes len i w.bytes_pos))
        × ((sent_one len i bytes c w).iface.address ≡ w.iface.address)
  unfolding send_packet
  sent_one-line len i bytes c w =
      ((send-Sends (data_pack w.iface.address c bytes len i w.bytes_pos) w.iface.tx).on_wire, refl)

  pub send_frames-Sent :
      (env : Burst) (l len k i : ℕ) (bytes : ℕ → ℕ) (c : SocketStream) (w : Sending)
      → Has w.iface l (AnySocket.client c)
      → ((j : ℕ) → env.arrived j ≡ [])
      → Sent env l len k i bytes c w
  unfolding send_frames
  send_frames-Sent env l len zero i bytes c w h none = record {
    after = w;
    runs = refl;
    has = h;
    line = sym (append-nil w.iface.tx.sent);
    here = refl;
    moved = refl;
    tuples = refl;
    final = refl;
  }
  send_frames-Sent env l len (suc k) i bytes c w h none =
      let w1 = sent_one len i bytes c w in
      let p1 = w.bytes_pos + part len w.bytes_pos in
      let first = data_pack w.iface.address c bytes len i w.bytes_pos in
      let (on_line, same) = sent_one-line len i bytes c w in
      let rest =
        send_frames-Sent env l len k (i + 1) bytes c w1 (send_packet-Has first w.iface l _ h)
          none in
      record {
        after = rest.after;
        runs =
            ap (λ o. do w2 ← o; send_frames env l bytes len k (i + 1) w2)
              (send_frame-one env l len i bytes c w h (none i))
            ∙ rest.runs;
        has = rest.has;
        line =
            rest.line
            ∙ ap₂ (λ xs a. xs ++ burst_frames a c bytes len k (i + 1) p1) on_line same
            ∙ append_assoc w.iface.tx.sent (wire first)
                (burst_frames w.iface.address c bytes len k (i + 1) p1);
        here = rest.here ∙ same;
        moved = rest.moved;
        tuples = rest.tuples;
        final = rest.final;
      }
