-- ===== src/Interface/Hearing.antt =====
-- A datagram's frame, read by an interface with one bound socket on the datagram's port.
use pico_lan.Prelude.{
  ℕ, ◌≤◌, ◌≡◌, refl, sym, ap, subst, ◌∙◌, false, ◌||◌, some, List, [], ◌∷◌, ◌++◌, ◌==◌,
  if◌then◌else◌, update, length, slice, ==_iff, ◌>>=◌, >>=-eq-some,
}
use pico_lan.Etk.{Etk}
use pico_lan.Etk.Items.{items, append_all, items-append_all_empty, length-items}
use pico_lan.Serialiser.Sender.{Sender}
use pico_lan.Serialiser.Framing.{frame}
use pico_lan.Serialiser.Wire.{content, send-Sends}
use pico_lan.Serialiser.Parser.{Parser, read_all}
use pico_lan.Serialiser.Parser.Decode.{received, Fits}
use pico_lan.Serialiser.Pack.{Packet}
use pico_lan.Serialiser.Pack.Datagram.{DatagramPack}
use pico_lan.Serialiser.RoundTrip.{read_all-send}
use pico_lan.Interface.{
  Interface, AnySocket, port_of, handle, handle_option, read, broadcast_addr, multicast_addr,
}
use pico_lan.Interface.Arrivals.{with_rx, handle_all, read-handle_all, read-cons}
use pico_lan.Interface.Delivery.{
  Elsewhere, Elsewhere-update, reached, reached-port, update_self, handle-datagram_one,
}

module _ ⦃E : Etk⦄ where
  -- What one packet puts on a line.
  abbrev pub wire : Packet → List ℕ
  wire p = frame (content p)

  handle_all-one : (p : Packet) (i : Interface) → handle_all (p ∷ []) i ≡ handle p i
  unfolding handle_all
  handle_all-one p i = refl

  -- An interface that reads the frame of a packet has handled the packet.
  pub read-wire :
      (p : Packet) (i : Interface)
      → Fits p
      → i.rx.stuff_flag ≡ false
      → (r : Parser) × (read i (wire p) ≡ some (with_rx (handle (received p) i) r))
        × (r.stuff_flag ≡ false)
  read-wire p i fits steady =
      let line : Sender = record { sum1 = 0; sum2 = 0; sent = []; flushed = 0 } in
      let (r, run, calm) = read_all-send line i.rx p refl steady fits in
      (
        r,
        read-handle_all i (wire p) r (received p ∷ [])
              (ap (read_all i.rx) (sym (send-Sends p line).on_wire) ∙ run)
            ∙ ap (λ j. some (with_rx j r)) (handle_all-one (received p) i),
        calm,
      )

  -- What is read in two parts.
  pub read-then :
      (i : Interface) (xs ys : List ℕ) (j : Interface)
      → read i xs ≡ some j
      → read i (xs ++ ys) ≡ read j ys
  read-then i [] ys j e = unfold read in ap (λ o. o >>= λ k. read k ys) e
  read-then i (c ∷ xs) ys j e =
      let ((r, m), now, later) = >>=-eq-some _ _ (sym (read-cons i c xs) ∙ e) in
      read-cons i c (xs ++ ys)
      ∙ ap (λ o. do (rx', m') ← o; read (handle_option m' (with_rx i rx')) (xs ++ ys)) now
      ∙ read-then (handle_option m (with_rx i r)) xs ys j later

  -- A datagram pack that was filled with `bytes`.
  abbrev pub carrying : ℕ → ℕ → ℕ → List ℕ → DatagramPack
  carrying source dest port bytes = record {
    ttl = 6;
    source_addr = source;
    dest_addr = dest;
    port = port;
    payload = append_all E.payload E.payload.empty bytes;
  }

  received-carrying :
      (source dest port : ℕ) (bytes : List ℕ)
      → length bytes ≤ 54
      → received (Packet.datagram (carrying source dest port bytes))
        ≡ Packet.datagram (carrying source dest port bytes)
  unfolding received
  received-carrying source dest port bytes fit =
      ap (λ xs. Packet.datagram (carrying source dest port xs))
        (items-append_all_empty E.payload bytes fit)

  -- The payload that a socket is given.
  pub payload-size :
      (bytes : List ℕ)
      → length bytes ≤ 54
      → E.payload.size (append_all E.payload E.payload.empty bytes) ≡ length bytes
  payload-size bytes fit =
      sym (length-items E.payload (append_all E.payload E.payload.empty bytes))
      ∙ ap length (items-append_all_empty E.payload bytes fit)

  pub payload-get :
      (bytes : List ℕ)
      → length bytes ≤ 54
      → slice (E.payload.get (append_all E.payload E.payload.empty bytes)) 0 (length bytes) ≡ bytes
  payload-get bytes fit =
      ap (slice (E.payload.get (append_all E.payload E.payload.empty bytes)) 0)
        (sym (payload-size bytes fit))
      ∙ items-append_all_empty E.payload bytes fit

  -- The pointer `l` is bound once, and no other bound socket has its port.
  pub record Bound (i : Interface) (l : ℕ) : Type 0 where
    pub front : List ℕ
    pub back : List ℕ
    pub listed : items E.sockets i.sockets ≡ front ++ (l ∷ back)
    pub none_before : Elsewhere i.heap (port_of (i.heap l)) front
    pub none_behind : Elsewhere i.heap (port_of (i.heap l)) back

  -- Another socket on the same port in the same place.
  pub Bound-update :
      (i : Interface) (l : ℕ) (s : AnySocket) (tx : Sender)
      → port_of s ≡ port_of (i.heap l)
      → Bound i l
      → Bound (record i { tx = tx; heap = update i.heap l s }) l
  Bound-update i l s tx e b =
      let port : port_of (update i.heap l s l) ≡ port_of (i.heap l) =
        ap port_of (update_self i.heap l s) ∙ e in
      record {
        front = b.front;
        back = b.back;
        listed = b.listed;
        none_before =
            subst (λ n. Elsewhere (update i.heap l s) n b.front) (sym port)
              (Elsewhere-update i.heap (port_of (i.heap l)) l s b.front e b.none_before);
        none_behind =
            subst (λ n. Elsewhere (update i.heap l s) n b.back) (sym port)
              (Elsewhere-update i.heap (port_of (i.heap l)) l s b.back e b.none_behind);
      }

  -- What reading the frame of `p` makes of interface `i` with the socket behind `l` on its port.
  pub record Hears (i j : Interface) (l : ℕ) (p : DatagramPack) : Type 0 where
    pub reads : read i (wire (Packet.datagram p)) ≡ some j
    pub steady : j.rx.stuff_flag ≡ false
    pub bound : Bound j l
    pub there : j.heap l ≡ (reached p l i).0
    pub line : j.tx ≡ (reached p l i).1
    pub here : j.address ≡ i.address

  pub hears :
      (i : Interface) (l source port : ℕ) (bytes : List ℕ)
      → i.rx.stuff_flag ≡ false
      → Bound i l
      → port_of (i.heap l) ≡ port
      → length bytes ≤ 54
      → (j : Interface) × Hears i j l (carrying source i.address port bytes)
  hears i l source port bytes steady b same fit =
      let p : DatagramPack = carrying source i.address port bytes in
      let (r, run, calm) = read-wire (Packet.datagram p) i tt steady in
      let k : Interface = record i {
        tx = (reached p l i).1;
        heap = update i.heap l (reached p l i).0;
      } in
      (
        with_rx k r,
        record {
          reads =
              run
              ∙ ap (λ q. some (with_rx (handle q i) r))
                  (received-carrying source i.address port bytes fit)
              ∙ ap (λ x. some (with_rx x r))
                  (handle-datagram_one p b.front b.back l i b.listed same
                      (subst (λ n. Elsewhere i.heap n b.front) same b.none_before)
                      (subst (λ n. Elsewhere i.heap n b.back) same b.none_behind)
                    ∙ ap
                        (λ t.
                          if t || i.address == broadcast_addr || i.address == multicast_addr
                          then k
                          else i)
                        ((==_iff i.address i.address).1 refl));
          steady = calm;
          bound =
              rebound (Bound-update i l (reached p l i).0 (reached p l i).1 (reached-port p l i) b)
                r;
          there = update_self i.heap l (reached p l i).0;
          line = refl;
          here = refl;
        },
      )
    where
      rebound : {k : Interface} → Bound k l → (r : Parser) → Bound (with_rx k r) l
      rebound d r = record {
        front = d.front;
        back = d.back;
        listed = d.listed;
        none_before = d.none_before;
        none_behind = d.none_behind;
      }
