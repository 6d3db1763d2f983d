-- ===== src/Interface/Bursts/Acked.antt =====
-- A client that reads the acknowledgements of a burst, and what their numbers are.
use pico_lan.Prelude.{
  ℕ, zero, suc, ◌+◌, ◌≤◌, ◌≡◌, ◌≢◌, refl, sym, ap, ap₂, ◌∙◌, some, List, [], ◌∷◌, ◌++◌, ==_iff,
  ne→==, u8, slice, slice-append, arith,
}
use pico_lan.Etk.{Etk}
use pico_lan.Serialiser.Pack.{Packet}
use pico_lan.Socket.{SocketStream, open_state, msg_ack}
use pico_lan.Interface.{Interface, AnySocket, read}
use pico_lan.Interface.Hearing.{wire, read-then, carrying}
use pico_lan.Interface.Handshake.Messages.{Has}
use pico_lan.Interface.Bursts.OpenMessages.{client_hears_ack_open}
use pico_lan.Interface.Bursts.Positions.{part, pos_after}
use pico_lan.Interface.Bursts.Served.{heard, number_after, taken, ack_wires}

-- The last of the acknowledged numbers, `x` when there is none.
abbrev pub ack_after : ℕ → ℕ → ℕ → ℕ → ℕ → ℕ
ack_after q zero i r x = x
ack_after q (suc k) i r x =
    ack_after q k (i + 1) (heard r (u8 (q + (i + 1)))) (heard r (u8 (q + (i + 1))))

pub ack_after-last : (q k i r x : ℕ) → ack_after q (suc k) i r x ≡ number_after q (suc k) i r
ack_after-last q zero i r x = refl
ack_after-last q (suc k) i r x =
    ack_after-last q k (i + 1) (heard r (u8 (q + (i + 1)))) (heard r (u8 (q + (i + 1))))

-- The number of bytes in `k` packets from position `p` on.
abbrev pub gone : ℕ → ℕ → ℕ → ℕ
gone len zero p = 0
gone len (suc k) p = part len p + gone len k (p + part len p)

pub pos_after-gone : (len k p : ℕ) → pos_after len k p ≡ p + gone len k p
pos_after-gone len zero p = omega arith
pos_after-gone len (suc k) p = omega (arith, pos_after-gone len k (p + part len p))

-- A server that has the number before the first packet takes them all.
pub in_step :
    (bytes : ℕ → ℕ) (len q k i r p : ℕ)
    → r ≡ u8 (q + i)
    → (number_after q k i r ≡ u8 (q + (i + k)))
      × (taken bytes len q k i r p ≡ slice bytes p (gone len k p))
in_step bytes len q zero i r p e = (ground arith, refl)
in_step bytes len q (suc k) i r p e =
    let n = u8 (q + (i + 1)) in
    let next : n ≡ u8 (r + 1) = omega arith in
    let (at, all) = in_step bytes len q k (i + 1) n (p + part len p) refl in
    rw ((==_iff n (u8 (r + 1))).1 next) (
      at ∙ ap u8 (omega arith),
      ap (λ xs. slice bytes p (part len p) ++ xs) all
          ∙ sym (slice-append bytes p (part len p) (gone len k (p + part len p))),
    )

-- A server that has the first packet's number already takes the others only.
pub one_behind :
    (bytes : ℕ → ℕ) (len q k i r p : ℕ)
    → r ≡ u8 (q + (i + 1))
    → (number_after q (suc k) i r ≡ u8 (q + (i + suc k)))
      × (taken bytes len q (suc k) i r p
          ≡ slice bytes (p + part len p) (gone len k (p + part len p)))
one_behind bytes len q k i r p e =
    let n = u8 (q + (i + 1)) in
    let other : n ≢ u8 (r + 1) = λ z. omega arith in
    let (at, all) = in_step bytes len q k (i + 1) r (p + part len p) e in
    rw (ne→== n (u8 (r + 1)) other) (at ∙ ap u8 (omega arith), all)

-- A server whose number is one before that of the sender takes none of up to 200 packets.
pub one_ahead :
    (bytes : ℕ → ℕ) (len q k i r p : ℕ)
    → q ≡ r + 1
    → i + k ≤ 200
    → (number_after q k i r ≡ r) × (taken bytes len q k i r p ≡ [])
one_ahead bytes len q zero i r p e few = (refl, refl)
one_ahead bytes len q (suc k) i r p e few =
    let n = u8 (q + (i + 1)) in
    let other : n ≢ u8 (r + 1) = λ z. omega arith in
    rw (ne→== n (u8 (r + 1)) other)
      (one_ahead bytes len q k (i + 1) r (p + part len p) e (omega arith))

module _ ⦃E : Etk⦄ where
  -- The open client `c` at `a` has read acknowledgements, the last with the number `n`.
  pub record Acked (a : Interface) (l : ℕ) (c : SocketStream) (frames : List ℕ) (n : ℕ)
      : Type 0 where
    pub after : Interface
    pub reads : read a frames ≡ some after
    pub has : Has after l (AnySocket.client (record c { last_recved_ack = n }))
    pub line : after.tx ≡ a.tx
    pub here : after.address ≡ a.address

  pub ack_wires-Acked :
      (k i q r source dest port l : ℕ) (a : Interface) (c : SocketStream)
      → Has a l (AnySocket.client c)
      → c.state ≡ open_state
      → c.remote ≡ source
      → dest ≡ a.address
      → port ≡ c.port
      → Acked a l c (ack_wires source dest port q k i r) (ack_after q k i r c.last_recved_ack)
  ack_wires-Acked zero i q r source dest port l a c h live same to_a to_port = record {
    after = a;
    reads = unfold read in refl;
    has = h;
    line = refl;
    here = refl;
  }
  ack_wires-Acked (suc k) i q r source dest port l a c h live same to_a to_port =
      let n = heard r (u8 (q + (i + 1))) in
      let (j, g) = client_hears_ack_open a l source n c h live same in
      let rest =
        ack_wires-Acked k (i + 1) q n source dest port l j (record c { last_recved_ack = n }) g.has
          live same (to_a ∙ sym g.here) to_port in
      record {
        after = rest.after;
        reads =
            read-then a _ (ack_wires source dest port q k (i + 1) n) j (
              ap₂ (λ d t. read a (wire (Packet.datagram (carrying source d t (msg_ack ∷ n ∷ [])))))
                to_a to_port
              ∙ g.reads)
            ∙ rest.reads;
        has = rest.has;
        line = rest.line ∙ g.line;
        here = rest.here ∙ g.here;
      }
