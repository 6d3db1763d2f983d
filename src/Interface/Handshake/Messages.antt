-- ===== src/Interface/Handshake/Messages.antt =====
-- What one control message does to the stream behind a pointer.
use pico_lan.Prelude.{ℕ, ◌≤◌, ◌≡◌, refl, sym, ap, ◌∙◌, false, some, List, [], ◌∷◌, length}
use pico_lan.Etk.{Etk}
use pico_lan.Etk.Items.{append_all}
use pico_lan.Serialiser.Sender.{Sender}
use pico_lan.Serialiser.Pack.{Packet}
use pico_lan.Serialiser.Pack.Datagram.{DatagramPack}
use pico_lan.Socket.{SocketStream}
use pico_lan.Interface.{Interface, AnySocket, base, port_of, read}
use pico_lan.Interface.Connecting.{with_stream, put_stream}
use pico_lan.Interface.Delivery.{reached, arrive, update_self}
use pico_lan.Interface.Hearing.{wire, carrying, payload-get, Bound, Bound-update, hears}

abbrev head_of : List ℕ → ℕ
head_of [] = 0
head_of (x ∷ xs) = x

abbrev pub tail_of : List ℕ → List ℕ
tail_of [] = []
tail_of (x ∷ xs) = xs

module _ ⦃E : Etk⦄ where
  -- The socket `s` behind the pointer `l`, bound alone on its port; no escaped byte is due.
  pub record Has (i : Interface) (l : ℕ) (s : AnySocket) : Type 0 where
    pub bound : Bound i l
    pub steady : i.rx.stuff_flag ≡ false
    pub there : i.heap l ≡ s

  -- Interface `j` is `i` after it has read the frame of `p`, with `s` behind `l` and `tx` as sender.
  pub record Heard (i j : Interface) (l : ℕ) (p : DatagramPack) (s : AnySocket) (tx : Sender)
      : Type 0 where
    pub reads : read i (wire (Packet.datagram p)) ≡ some j
    pub has : Has j l s
    pub line : j.tx ≡ tx
    pub here : j.address ≡ i.address

  pub put_client :
      (i : Interface) (l : ℕ) (c c' : SocketStream) (tx : Sender)
      → Has i l (AnySocket.client c)
      → c'.port ≡ c.port
      → Has (put_stream l (c', tx) i) l (AnySocket.client c')
  unfolding base
  put_client i l c c' tx h same =
      let kept : with_stream (i.heap l) c' ≡ AnySocket.client c' =
        ap (λ s. with_stream s c') h.there in
      record {
        bound =
            Bound-update i l (with_stream (i.heap l) c') tx
              (ap port_of kept ∙ same ∙ sym (ap port_of h.there)) h.bound;
        steady = h.steady;
        there = update_self i.heap l (with_stream (i.heap l) c') ∙ kept;
      }

  pub put_server :
      (i : Interface) (l : ℕ) (c c' : SocketStream) (tx : Sender)
      → Has i l (AnySocket.server c)
      → c'.port ≡ c.port
      → Has (put_stream l (c', tx) i) l (AnySocket.server c')
  unfolding base
  put_server i l c c' tx h same =
      let kept : with_stream (i.heap l) c' ≡ AnySocket.server c' =
        ap (λ s. with_stream s c') h.there in
      record {
        bound =
            Bound-update i l (with_stream (i.heap l) c') tx
              (ap port_of kept ∙ same ∙ sym (ap port_of h.there)) h.bound;
        steady = h.steady;
        there = update_self i.heap l (with_stream (i.heap l) c') ∙ kept;
      }

  -- Any message from `source`, with the socket that `arrive` gives.
  pub hears_as :
      (i : Interface) (l source port : ℕ) (bytes : List ℕ) (s s' : AnySocket) (tx : Sender)
      → Has i l s
      → port_of s ≡ port
      → length bytes ≤ 54
      → arrive (carrying source i.address port bytes) i s ≡ (s', tx)
      → (j : Interface) × Heard i j l (carrying source i.address port bytes) s' tx
  hears_as i l source port bytes s s' tx h same fit does =
      let (j, g) = hears i l source port bytes h.steady h.bound (ap port_of h.there ∙ same) fit in
      let all : reached (carrying source i.address port bytes) l i ≡ (s', tx) =
        ap (arrive (carrying source i.address port bytes) i) h.there ∙ does in
      (
        j,
        record {
          reads = g.reads;
          has = record { bound = g.bound; steady = g.steady; there = g.there ∙ ap (λ q. q.0) all };
          line = g.line ∙ ap (λ q. q.1) all;
          here = g.here;
        },
      )

  -- The bytes of a payload of two and of three.
  abbrev pub payload_of : List ℕ → ℕ → ℕ
  payload_of bytes = E.payload.get (append_all E.payload E.payload.empty bytes)

  pub first_byte : (x : ℕ) (xs : List ℕ) → length (x ∷ xs) ≤ 54 → payload_of (x ∷ xs) 0 ≡ x
  first_byte x xs fit = ap head_of (payload-get (x ∷ xs) fit)

  pub second_byte :
      (x y : ℕ) (xs : List ℕ) → length (x ∷ y ∷ xs) ≤ 54 → payload_of (x ∷ y ∷ xs) 1 ≡ y
  second_byte x y xs fit = ap (λ ys. head_of (tail_of ys)) (payload-get (x ∷ y ∷ xs) fit)

  pub third_byte :
      (x y z : ℕ) (xs : List ℕ) → length (x ∷ y ∷ z ∷ xs) ≤ 54 → payload_of (x ∷ y ∷ z ∷ xs) 2 ≡ z
  third_byte x y z xs fit =
      ap (λ ys. head_of (tail_of (tail_of ys))) (payload-get (x ∷ y ∷ z ∷ xs) fit)

  abbrev pub from : SocketStream → ℕ → SocketStream
  from s r = record s { socket = record s.socket { remote = r } }

  pub client_port : (c : SocketStream) → port_of (AnySocket.client c) ≡ c.port
  unfolding base
  client_port c = refl

  pub server_port : (c : SocketStream) → port_of (AnySocket.server c) ≡ c.port
  unfolding base
  server_port c = refl
