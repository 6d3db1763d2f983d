-- ===== src/Interface/Agreement.antt =====
-- Client::connect and Server::accept together: both return success and agree on the connection.
use pico_lan.Prelude.{ℕ, ◌≤◌, ◌≡◌, refl, sym, ap, ◌∙◌, some, List, [], ◌∷◌, ◌++◌, ◌>>=◌}
use pico_lan.Etk.{Etk}
use pico_lan.Serialiser.Pack.{Packet}
use pico_lan.Socket.{
  SocketStream, ok, closed, syn_sent, listening, syn_recved, pending, open_state, msg_ack, msg_syn,
}
use pico_lan.Socket.Stream.{send_ack}
use pico_lan.Interface.{Interface, AnySocket, read}
use pico_lan.Interface.Waiting.{Round, elapsed}
use pico_lan.Interface.Connecting.{
  put_stream, returned, connect_start, connect_end, connect, accept_start, accept_end, accept,
}
use pico_lan.Interface.Hearing.{wire, read-then, carrying}
use pico_lan.Interface.Handshake.{
  round, wait_while-left, connect_lem, accept_lem, connect_start-Has, connect_start-sent,
  accept_start-Has, accept_start-sent, connect_end-ok, accept_end-ok, send_ack-sent, asking, asked,
  answering, ack_from, client_end, server_end, stream_of-Has-client, stream_of-Has-server,
}
use pico_lan.Interface.Handshake.Messages.{Has, put_client}
use pico_lan.Interface.Handshake.Control.{
  client_hears_ack, client_hears_syn, server_hears_syn, server_hears_ack,
}

module _ ⦃E : Etk⦄ where
  abbrev message : ℕ → ℕ → ℕ → List ℕ → Packet
  message source dest port bytes = Packet.datagram (carrying source dest port bytes)

  -- An ACK and a SYN message that come in the first round, in time, end `connect` with success.
  client_side :
      (a : Interface) (l r port start t n m k : ℕ) (rs : List Round) (c : SocketStream)
      → Has a l (AnySocket.client c)
      → c.state ≡ closed
      → elapsed t start ≤ c.timeout
      → (a2 : Interface) × (connect l r port start
            (round t (
                wire (message r a.address c.port (msg_ack ∷ n ∷ []))
                ++ wire (message r a.address c.port (msg_syn ∷ m ∷ k ∷ [])))
              ∷ rs)
            a
          ≡ some (returned ok a2))
        × (a2.tx.sent
            ≡ (connect_start l r port c a).tx.sent
              ++ wire (message a.address r port (msg_ack ∷ m ∷ [])))
        × (a2.heap l
            ≡ AnySocket.client
                (record (asking c r port) { remote_sequence = m; state = open_state }))
  unfolding connect_start
  client_side a l r port start t n m k rs c h shut early =
      let a1 : Interface = connect_start l r port c a in
      let (x, hx) =
        client_hears_ack a1 l r n (asking c r port) (connect_start-Has a l r port c h) refl refl in
      let (y, hy) = client_hears_syn x l r m k (asking c r port) hx.has refl refl in
      let c2 : SocketStream = record (asking c r port) {
        remote_sequence = m;
        state = syn_recved;
      } in
      let heard : read a1 _ ≡ some y =
        read-then a1 _ (wire (message r a.address c.port (msg_syn ∷ m ∷ k ∷ []))) x hx.reads
        ∙ ap (λ z. read x (wire (message r z c.port (msg_syn ∷ m ∷ k ∷ [])))) (sym hx.here)
        ∙ hy.reads in
      let here : y.address ≡ a.address = hy.here ∙ hx.here in
      let line : y.tx ≡ a1.tx = hy.line ∙ hx.line in
      (
        put_stream l (record c2 { state = open_state }, send_ack y.address c2 y.tx) y,
        connect_lem l r port start _ a c h.there shut
            ∙ ap (λ o. o >>= connect_end l)
                (wait_while-left syn_sent _ rs start l a1 y c2 heard (stream_of-Has-client hy.has)
                  early refl)
            ∙ connect_end-ok y l c2 hy.has refl,
        send_ack-sent y c2
            ∙ ap (λ tx. tx.sent ++ wire (ack_from y c2)) line
            ∙ ap (λ z. a1.tx.sent ++ wire (message z r port (msg_ack ∷ m ∷ []))) here,
        (put_client y l c2 (record c2 { state = open_state }) (send_ack y.address c2 y.tx) hy.has
            refl).there,
      )

  -- An ACK message from the client that comes in the first round, in time, ends `accept` with success.
  server_side :
      (b : Interface) (l start t m : ℕ) (rs : List Round) (v : SocketStream)
      → Has b l (AnySocket.server v)
      → v.state ≡ syn_recved
      → elapsed t start ≤ v.timeout
      → (b2 : Interface) × (accept l start
            (round t (wire (message v.remote b.address v.port (msg_ack ∷ m ∷ []))) ∷ rs)
            b
          ≡ some (returned ok b2))
        × (b2.heap l ≡ AnySocket.server (record (answering v) { state = open_state }))
  unfolding accept_start
  server_side b l start t m rs v h asked early =
      let b1 : Interface = accept_start l v b in
      let (x, hx) =
        server_hears_ack b1 l v.remote m (answering v) (accept_start-Has b l v h) refl refl in
      (
        x,
        accept_lem l start _ b v h.there asked
            ∙ ap (λ o. o >>= accept_end l)
                (wait_while-left pending _ rs start l b1 x
                  (record (answering v) { state = open_state }) hx.reads
                  (stream_of-Has-server hx.has) early refl)
            ∙ accept_end-ok x l _ hx.has refl,
        hx.has.there,
      )

  -- The two programs side by side: what `connect` sends first makes the server's interface `b1`; what
  -- `accept` sends first reaches the client in one round; what the client sends then, `reply`, reaches
  -- the server in one round.
  pub record Connects (a b : Interface) (la lb start_a start_b ta tb : ℕ) (ra rb : List Round)
      (c v : SocketStream) : Type 0 where
    pub a2 : Interface
    pub b1 : Interface
    pub b2 : Interface
    pub reply : List ℕ
    pub heard : read b (connect_start la b.address v.port c a).tx.sent ≡ some b1
    pub pending_on : b1.heap lb ≡ AnySocket.server (asked v a.address c.sequence_number c.port)
    pub connects :
        connect la b.address v.port start_a
          (round ta (accept_start lb (asked v a.address c.sequence_number c.port) b1).tx.sent ∷ ra)
          a
        ≡ some (returned ok a2)
    pub replied : a2.tx.sent ≡ (connect_start la b.address v.port c a).tx.sent ++ reply
    pub accepts : accept lb start_b (round tb reply ∷ rb) b1 ≡ some (returned ok b2)
    pub client_open : a2.heap la ≡ AnySocket.client (client_end b c v)
    pub server_open : b2.heap lb ≡ AnySocket.server (server_end a c v)

  -- A client whose state is CLOSED connects to a server that listens. When each side's bytes reach the
  -- other in one round that ends within its timeout, `connect` and `accept` both return success, and
  -- both streams are open; each has the other's address and port as its remote end and the number of
  -- the other's SYN message as the remote sequence number. Each socket is the one bound socket on its
  -- port, the lines are fresh, and neither parser waits for an escaped byte.
  pub connect-accept :
      (a b : Interface) (la lb start_a start_b ta tb : ℕ) (ra rb : List Round) (c v : SocketStream)
      → Has a la (AnySocket.client c)
      → Has b lb (AnySocket.server v)
      → c.state ≡ closed
      → v.state ≡ listening
      → a.tx.sent ≡ []
      → b.tx.sent ≡ []
      → elapsed ta start_a ≤ c.timeout
      → elapsed tb start_b ≤ v.timeout
      → Connects a b la lb start_a start_b ta tb ra rb c v
  connect-accept a b la lb start_a start_b ta tb ra rb c v hc hv shut waits fresh_a fresh_b early_a
        early_b =
      let (b1, hb) = server_hears_syn b lb a.address c.sequence_number c.port v hv waits in
      let v1 : SocketStream = asked v a.address c.sequence_number c.port in
      let (a2, connects, replied, open_a) =
        client_side a la b.address v.port start_a ta c.sequence_number v.sequence_number v.port ra c
          hc shut early_a in
      let (b2, accepts, open_b) =
        server_side b1 lb start_b tb v.sequence_number rb v1 hb.has refl early_b in
      record {
        a2 = a2;
        b1 = b1;
        b2 = b2;
        reply = wire (message a.address b1.address v.port (msg_ack ∷ v.sequence_number ∷ []));
        heard = ap (read b) (connect_start-sent a la b.address v.port c fresh_a) ∙ hb.reads;
        pending_on = hb.has.there;
        connects =
            ap (λ xs. connect la b.address v.port start_a (round ta xs ∷ ra) a)
              (accept_start-sent b1 lb v1 (ap (λ t. t.sent) hb.line ∙ fresh_b)
                ∙ ap
                    (λ z.
                      wire (message z a.address c.port (msg_ack ∷ c.sequence_number ∷ []))
                      ++ wire
                          (message z a.address c.port (msg_syn ∷ v.sequence_number ∷ v.port ∷ [])))
                    hb.here)
            ∙ connects;
        replied =
            replied
            ∙ ap
                (λ z.
                  (connect_start la b.address v.port c a).tx.sent
                  ++ wire (message a.address z v.port (msg_ack ∷ v.sequence_number ∷ [])))
                (sym hb.here);
        accepts = accepts;
        client_open = open_a;
        server_open = open_b;
      }
