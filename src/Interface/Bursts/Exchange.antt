-- ===== src/Interface/Bursts/Exchange.antt =====
-- One burst of a client, the server that reads it, and the client that reads the acknowledgements.
use pico_lan.Prelude.{
  ℕ, suc, ◌+◌, ◌≤◌, ◌≡◌, refl, sym, ap, subst, ◌∙◌, List, [], ◌∷◌, ◌++◌, length, u8, arith,
}
use pico_lan.Etk.{Etk}
use pico_lan.Socket.{SocketStream, open_state}
use pico_lan.Interface.{Interface, AnySocket}
use pico_lan.Interface.Waiting.{Round}
use pico_lan.Interface.Handshake.{round}
use pico_lan.Interface.Handshake.Messages.{Has}
use pico_lan.Interface.Bursts.{Burst}
use pico_lan.Interface.Bursts.Frames.{burst_frames, final_after-last, Sent, send_frames-Sent}
use pico_lan.Interface.Bursts.Served.{number_after, taken, ack_wires}
use pico_lan.Interface.Bursts.Reception.{Served, burst_frames-Served}
use pico_lan.Interface.Bursts.Acked.{ack_after-last, Acked, ack_wires-Acked}
use pico_lan.Interface.Bursts.Starting.{from_position}

module _ ⦃E : Etk⦄ where
  open E.ring use {queue, room}

  -- The client `c` at `a` and the server `v` at `b` are the two ends of an open connection, and each is the
  -- one bound socket on its port.
  pub record Joined (a b : Interface) (la lb : ℕ) (c v : SocketStream) : Type 0 where
    pub client_here : Has a la (AnySocket.client c)
    pub server_here : Has b lb (AnySocket.server v)
    pub client_open : c.state ≡ open_state
    pub server_open : v.state ≡ open_state
    pub to_server : c.remote ≡ b.address
    pub to_client : v.remote ≡ a.address
    pub server_port : c.remote_port ≡ v.port
    pub client_port : v.remote_port ≡ c.port

  -- The environment of a burst: all answers come in one round, at time `t`.
  abbrev pub answered : ℕ → ℕ → List ℕ → List Round → Burst
  answered start t answers rest = record {
    arrived = λ i. [];
    start = start;
    rounds = round t answers ∷ rest;
  }

  -- A burst of `suc k` packets from position `p` on: the server takes `got`, answers with `answers` and ends at the number
  -- `n`, which is the last that it acknowledges.
  pub record Exchange (a b : Interface) (la lb start t len p k n : ℕ) (bytes : ℕ → ℕ) (got : List ℕ)
      (rest : List Round) (c v : SocketStream) : Type 0 where
    pub answers : List ℕ
    pub served : Served b lb v (burst_frames a.address c bytes len (suc k) 0 p) got n answers
    pub sent : Sent (answered start t answers rest) la len (suc k) 0 bytes c (from_position p a)
    pub acked : Acked sent.after.iface la c answers n
    pub final : sent.after.final_seq ≡ u8 (c.sequence_number + suc k)
    pub on_line : acked.after.tx.sent ≡ a.tx.sent ++ burst_frames a.address c bytes len (suc k) 0 p
    pub here : acked.after.address ≡ a.address

  pub burst-Exchange :
      (a b : Interface) (la lb start t len p k n : ℕ) (bytes : ℕ → ℕ) (got : List ℕ)
      (rest : List Round) (c v : SocketStream)
      → Joined a b la lb c v
      → number_after c.sequence_number (suc k) 0 v.remote_sequence ≡ n
      → taken bytes len c.sequence_number (suc k) 0 v.remote_sequence p ≡ got
      → length got ≤ room v.ringbuf
      → Exchange a b la lb start t len p k n bytes got rest c v
  burst-Exchange a b la lb start t len p k n bytes got rest c v h number takes holds =
      let q = c.sequence_number in
      let frames = burst_frames a.address c bytes len (suc k) 0 p in
      let acks = ack_wires b.address v.remote v.remote_port q (suc k) 0 v.remote_sequence in
      let served =
        subst (λ xs. Served b lb v frames xs n acks) takes
          (subst
            (λ m. Served b lb v frames (taken bytes len q (suc k) 0 v.remote_sequence p) m acks)
            number
            (burst_frames-Served (suc k) 0 p len a.address bytes c v b lb h.server_here
              h.server_open h.to_client h.to_server h.server_port
              (subst (λ xs. length xs ≤ room v.ringbuf) (sym takes) holds))) in
      let sent =
        send_frames-Sent (answered start t acks rest) la len (suc k) 0 bytes c (from_position p a)
          h.client_here (λ j. refl) in
      let acked : Acked sent.after.iface la c acks n =
        subst (Acked sent.after.iface la c acks)
          (ack_after-last q k 0 v.remote_sequence c.last_recved_ack ∙ number)
          (ack_wires-Acked (suc k) 0 q v.remote_sequence b.address v.remote v.remote_port la
            sent.after.iface c sent.has h.client_open h.to_server (h.to_client ∙ sym sent.here)
            h.client_port) in
      record {
        answers = acks;
        served = served;
        sent = sent;
        acked = acked;
        final = sent.final ∙ final_after-last q k 0 0 ∙ ap u8 {x = q + (0 + suc k)} (omega arith);
        on_line = ap (λ x. x.sent) acked.line ∙ sent.line;
        here = acked.here ∙ sent.here;
      }

  -- The two ends of the connection behind a burst, where the client has kept its socket but for its
  -- numbers.
  pub Exchange-Joined :
      (a b a2 : Interface) (la lb start t len p k n : ℕ) (bytes : ℕ → ℕ) (got : List ℕ)
      (rest : List Round) (c c2 v : SocketStream)
      → Joined a b la lb c v
      → (x : Exchange a b la lb start t len p k n bytes got rest c v)
      → Has a2 la (AnySocket.client c2)
      → a2.address ≡ a.address
      → (c2.state ≡ c.state) × (c2.remote_port ≡ c.remote_port) × (c2.socket ≡ c.socket)
      → Joined a2 x.served.after la lb c2 x.served.stream
  Exchange-Joined a b a2 la lb start t len p k n bytes got rest c c2 v h x there address
        (state, port, socket) =
      record {
        client_here = there;
        server_here = x.served.has;
        client_open = state ∙ h.client_open;
        server_open = x.served.live;
        to_server = ap (λ s. s.remote) socket ∙ h.to_server ∙ sym x.served.here;
        to_client = x.served.same_remote ∙ h.to_client ∙ sym address;
        server_port = port ∙ h.server_port ∙ sym x.served.same_port;
        client_port = x.served.same_remote_port ∙ h.client_port ∙ sym (ap (λ s. s.port) socket);
      }
