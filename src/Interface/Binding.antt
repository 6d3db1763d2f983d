-- ===== src/Interface/Binding.antt =====
-- picolan.h: binding sockets to an interface.
use pico_lan.Prelude.{
  ℕ, zero, suc, ◌+◌, Bool, true, false, List, [], ◌∷◌, ◌==◌, ltb, if◌then◌else◌, update,
}
use pico_lan.Etk.{Etk}
use pico_lan.Etk.Items.{items}
use pico_lan.Interface.{Interface, AnySocket, base, with_base, port_of}

module _ ⦃E : Etk⦄ where
  open E.sockets use {append, remove, size, get}

  -- The search loop of `bind`.
  unfoldable pub port_taken : (ℕ → AnySocket) → ℕ → List ℕ → Bool
  port_taken heap port [] = false
  port_taken heap port (l ∷ ls) =
      let rest = port_taken heap port ls in if port_of (heap l) == port then true else rest

  -- `bind(Socket&)`; the result tells whether the socket is bound.
  unfoldable pub bind : ℕ → Interface → Interface × Bool
  unfolding port_taken with_base base
  bind l i =
      if port_taken i.heap (port_of (i.heap l)) (items E.sockets i.sockets) then (i, false) else (
        record i {
          heap = update i.heap l (with_base (i.heap l) (record (base (i.heap l)) { bound = true }));
          sockets = append i.sockets l;
        },
        true,
      )

  -- The loop of `unbind_socket` from index `k`: the bound is read again each round, and the index
  -- moves on behind a removal too. `fuel` rounds at most.
  unfoldable pub unbind_from : ℕ → ℕ → ℕ → Interface → Interface
  unbind_from zero k port i = i
  unbind_from (suc fuel) k port i =
      if ltb k (size i.sockets)
      then unbind_from fuel (k + 1) port (
          if port_of (i.heap (get i.sockets k)) == port
          then record i { sockets = remove i.sockets k }
          else i)
      else i

  -- `unbind_socket(Socket&)`. The loop ends within as many rounds as the list is long.
  unfoldable pub unbind_socket : ℕ → Interface → Interface
  unfolding unbind_from
  unbind_socket l i = unbind_from (size i.sockets) 0 (port_of (i.heap l)) i

  -- The wrappers by class.
  unfoldable pub bind_datagram : ℕ → Interface → Interface × Bool
  unfolding bind
  bind_datagram l i = bind l i

  unfoldable pub bind_server : ℕ → Interface → Interface × Bool
  unfolding bind
  bind_server l i = bind l i

  unfoldable pub bind_client : ℕ → Interface → Interface × Bool
  unfolding bind
  bind_client l i = bind l i

  unfoldable pub unbind_datagram : ℕ → Interface → Interface
  unfolding unbind_socket
  unbind_datagram l i = unbind_socket l i

  unfoldable pub unbind_server : ℕ → Interface → Interface
  unfolding unbind_socket
  unbind_server l i = unbind_socket l i

  unfoldable pub unbind_client : ℕ → Interface → Interface
  unfolding unbind_socket
  unbind_client l i = unbind_socket l i
