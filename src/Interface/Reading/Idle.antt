-- ===== src/Interface/Reading/Idle.antt =====
-- SocketStream::read on a line that brings nothing.
use pico_lan.Prelude.{
  ℕ, suc, ◌+◌, ◌<◌, ◌≡◌, refl, sym, ap, subst, ◌∙◌, some, List, [], ◌∷◌, ◌++◌, ◌⊎◌, inl, inr, ◌>>=◌,
  dec_lt, arith,
}
use pico_lan.Etk.{Etk}
use pico_lan.Serialiser.Sender.{Sender}
use pico_lan.Serialiser.Wire.{datagram-Sends}
use pico_lan.Serialiser.Pack
use pico_lan.Serialiser.Pack.{Packet}
use pico_lan.Socket.{SocketStream, closed, open_state, msg_close}
use pico_lan.Socket.Stream.{connected, disconnect, stream_pack}
use pico_lan.Interface.{Interface, AnySocket, base}
use pico_lan.Interface.Connecting.{stream_of, with_stream, put_stream}
use pico_lan.Interface.Delivery.{update_self}
use pico_lan.Interface.Hearing.{wire}
use pico_lan.Interface.Reading.{
  Call, available, nothing, timed_read, finished, read_bytes, count_empty, filled, stream_read_end,
  stream_read,
}
use pico_lan.Interface.Reading.Queue.{Silent, timed_read-Silent}

module _ ⦃E : Etk⦄ where
  read_bytes-nothing :
      (c : Call) (cs : List Call) (n l : ℕ) (i : Interface)
      → timed_read c.rounds c.start l i ≡ some (nothing i)
      → read_bytes (c ∷ cs) (suc n) l i ≡ some (finished [] i)
  unfolding read_bytes
  read_bytes-nothing c cs n l i e = rw e refl

  stream_read_end-none :
      (l : ℕ) (i : Interface) (s : SocketStream)
      → i.heap l ≡ AnySocket.client s
      → stream_read_end l (finished [] i) ≡ some (filled [] (count_empty l s i))
  unfolding stream_read_end
  stream_read_end-none l i s here =
      ap (λ t. do s' ← stream_of t; some (filled [] (count_empty l s' i))) here

  stream_read-open :
      (calls : List Call) (n l : ℕ) (i : Interface) (s : SocketStream)
      → i.heap l ≡ AnySocket.client s
      → s.state ≡ open_state
      → stream_read calls n l i ≡ (do result ← read_bytes calls n l i; stream_read_end l result)
  unfolding stream_read connected
  stream_read-open calls n l i s here live = rw here (rw live refl)

  stream_read-nothing :
      (calls : List Call) (n l : ℕ) (i : Interface) (s : SocketStream)
      → i.heap l ≡ AnySocket.client s
      → s.state ≡ open_state
      → read_bytes calls n l i ≡ some (finished [] i)
      → stream_read calls n l i ≡ some (filled [] (count_empty l s i))
  stream_read-nothing calls n l i s here live e =
      stream_read-open calls n l i s here live
      ∙ ap (λ o. o >>= stream_read_end l) e
      ∙ stream_read_end-none l i s here

  count_empty-few :
      (l : ℕ) (s : SocketStream) (i : Interface)
      → s.zero_read_count < 2
      → count_empty l s i
        ≡ put_stream l (record s { zero_read_count = s.zero_read_count + 1 }, i.tx) i
  unfolding count_empty
  count_empty-few l s i few = ground arith

  abbrev close_message : ℕ → SocketStream → Packet
  close_message address s =
      Packet.datagram (stream_pack address s (msg_close ∷ s.sequence_number ∷ []))

  disconnect_open :
      (address : ℕ) (s : SocketStream) (tx : Sender)
      → s.state ≡ open_state
      → disconnect address s tx ≡ (
        record s { state = closed },
        Pack.Datagram.send (stream_pack address s (msg_close ∷ s.sequence_number ∷ [])) tx,
      )
  unfolding disconnect
  disconnect_open address s tx live = rw live refl

  count_empty-third :
      (l : ℕ) (s : SocketStream) (i : Interface)
      → s.zero_read_count ≡ 2
      → s.state ≡ open_state
      → count_empty l s i
        ≡ put_stream l
            (
              record s { zero_read_count = 0; state = closed },
              Pack.Datagram.send
                  (stream_pack i.address s (msg_close ∷ s.sequence_number ∷ []))
                  i.tx,
            )
            i
  unfolding count_empty
  count_empty-third l s i two live = rw two (
      ap (λ q. put_stream l (record q.0 { zero_read_count = 0 }, q.1) i)
        (disconnect_open i.address (record s { zero_read_count = 3 }) i.tx live))

  put_there :
      (l : ℕ) (i : Interface) (s s' : SocketStream) (tx : Sender)
      → i.heap l ≡ AnySocket.client s
      → (put_stream l (s', tx) i).heap l ≡ AnySocket.client s'
  put_there l i s s' tx here =
      update_self i.heap l (with_stream (i.heap l) s') ∙ ap (λ t. with_stream t s') here

  timeout_of :
      (i : Interface) (l : ℕ) (s : SocketStream)
      → i.heap l ≡ AnySocket.client s
      → s.timeout ≡ (base (i.heap l)).timeout
  unfolding base
  timeout_of i l s here = sym (ap (λ t. (base t).timeout) here)

  -- An open client that reads one byte or more, with an empty ring buffer and nothing arriving before
  -- its timeout, reads none. Where zero_read_count is below 2, it grows by one, and nothing else of the
  -- client changes and nothing is sent; where it is 2, it goes back to 0, and the client is closed and
  -- sends a CLOSE message to the other end.
  pub stream_read-Silent :
      (c : Call) (cs : List Call) (n l : ℕ) (i : Interface) (s : SocketStream)
      → i.heap l ≡ AnySocket.client s
      → s.state ≡ open_state
      → available l i ≡ 0
      → Silent s.timeout c.start c.rounds
      → s.zero_read_count < 3
      → (j : Interface) × (stream_read (c ∷ cs) (suc n) l i ≡ some (filled [] j))
        × ((s.zero_read_count < 2)
              × (j.heap l ≡ AnySocket.client (record s { zero_read_count = s.zero_read_count + 1 }))
              × (j.tx ≡ i.tx)
            ⊎ (s.zero_read_count ≡ 2)
              × (j.heap l ≡ AnySocket.client (record s { zero_read_count = 0; state = closed }))
              × (j.tx.sent ≡ i.tx.sent ++ wire (close_message i.address s)))
  stream_read-Silent c cs n l i s here live empty silent few =
      let read_none = read_bytes-nothing c cs n l i (
        timed_read-Silent c.rounds c.start l i empty
          (subst (λ t. Silent t c.start c.rounds) (timeout_of i l s here) silent)) in
      let result = stream_read-nothing (c ∷ cs) (suc n) l i s here live read_none in
      elim (dec_lt s.zero_read_count 2) [
        | yes h ↦ (
          _,
          result ∙ ap (λ j. some (filled [] j)) (count_empty-few l s i h),
          inl (h, put_there l i s _ i.tx here, refl),
        )
        | no h ↦ (
          _,
          result ∙ ap (λ j. some (filled [] j)) (count_empty-third l s i (omega arith) live),
          inr (
            omega arith,
            put_there l i s _
                (Pack.Datagram.send (stream_pack i.address s (msg_close ∷ s.sequence_number ∷ []))
                  i.tx)
                here,
            (datagram-Sends (stream_pack i.address s (msg_close ∷ s.sequence_number ∷ []))
                i.tx).on_wire,
          ),
        )
      ]
