-- ===== src/Interface/Waiting.antt =====
-- picolan.h: the operations of Interface that wait for an answer, ping and get_addr_list.
pub mod Answers
use pico_lan.Prelude.{
  ℕ, ◌+◌, ◌-◌, ◌%◌, ◌^◌, Bool, true, false, Option, some, List, [], ◌∷◌, ◌==◌, ltb, if◌then◌else◌,
  u16, ◌>>=◌,
}
use pico_lan.Etk.{Etk}
use pico_lan.Serialiser.Pack.{Packet}
use pico_lan.Interface.{Interface, send_packet, read}

-- What one round of a waiting loop meets: the clock at its test, the bytes that `read` finds, and the
-- clock after `read`.
pub record Round : Type 0 where
  pub before : ℕ
  pub arrived : List ℕ
  pub after : ℕ

-- `millis() - start`, on a clock of 32 bits that wraps round.
abbrev pub elapsed : ℕ → ℕ → ℕ
elapsed now start = (now + 2 ^ 32 - start) % 2 ^ 32

module _ ⦃E : Etk⦄ where
  -- Where an operation stands after some rounds. `done` has the time that `ping` returns.
  pub data Outcome : Type 0 where
    done : ℕ → Interface → Outcome
    timed_out : Interface → Outcome
    waiting : Interface → Outcome

  -- The loop of `ping`. A `none` is an access outside the receive buffer.
  unfoldable pub ping_loop : List Round → ℕ → ℕ → ℕ → Interface → Option Outcome
  ping_loop [] start timeout payload i = some (waiting i)
  ping_loop (r ∷ rs) start timeout payload i =
      if ltb (elapsed r.before start) timeout
      then (do
        j ← read i r.arrived
        let rest = ping_loop rs start timeout payload j
        if j.ping_echo_payload == payload then some (done (elapsed r.after start) j) else rest)
      else some (timed_out i)

  -- ping(dest, timeout_ms), which reads the clock twice before it waits.
  unfoldable pub ping : ℕ → ℕ → ℕ → ℕ → List Round → Interface → Option Outcome
  unfolding ping_loop send_packet
  ping dest timeout now start rounds i =
      let payload = u16 now in
      ping_loop rounds start timeout payload (
        send_packet
          (Packet.ping
            (record { ttl = 6; source_addr = i.address; dest_addr = dest; payload = payload }))
          i)

  -- The loop of `get_addr_list`, where `done 0` stands for Error::NONE.
  unfoldable pub addr_list_loop : List Round → ℕ → ℕ → Interface → Option Outcome
  addr_list_loop [] start timeout i = some (waiting i)
  addr_list_loop (r ∷ rs) start timeout i =
      if ltb (elapsed r.before start) timeout
      then (do
        j ← read i r.arrived
        let rest = addr_list_loop rs start timeout j
        if j.addr_list_recved then some (done 0 j) else rest)
      else some (timed_out i)

  unfoldable pub get_addr_list : ℕ → ℕ → List Round → Interface → Option Outcome
  unfolding addr_list_loop send_packet
  get_addr_list timeout start rounds i = addr_list_loop rounds start timeout (
      send_packet (Packet.get_addr_list (record { ttl = 6 }))
        (record i { addr_list_recved = false }))
