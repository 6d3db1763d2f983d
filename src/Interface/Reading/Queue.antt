-- ===== src/Interface/Reading/Queue.antt =====
-- Reading takes bytes off the front of the ring buffer, and what reading an idle line comes to.
use pico_lan.Prelude.{
  ℕ, zero, suc, ◌+◌, ◌≤◌, ◌<◌, ◌≡◌, refl, sym, ap, ◌∙◌, some, List, [], ◌∷◌, ◌++◌, ◌⊎◌, inl, inr,
  lt→ltb, update, length, arith,
}
use pico_lan.Etk.{Etk}
use pico_lan.Socket.{Socket}
use pico_lan.Interface.{Interface, AnySocket, base, with_base, read}
use pico_lan.Interface.Waiting.{Round, elapsed}
use pico_lan.Interface.Delivery.{update_self}
use pico_lan.Interface.Reading.{
  Call, available, got, nothing, take_byte, timed_read, finished, with_byte, read_bytes,
}

module _ ⦃E : Etk⦄ where
  open E.ring use {queue, queue-get, available-get, get}

  -- The bytes that the socket behind `l` has not handed over yet.
  unfoldable pub unread : ℕ → Interface → List ℕ
  unfolding base
  unread l i = queue (base (i.heap l)).ringbuf

  abbrev ring_of : ℕ → Interface → E.ring.Rep
  ring_of l i = (base (i.heap l)).ringbuf

  base-with_base : (s : AnySocket) (b : Socket) → base (with_base s b) ≡ b
  unfolding base with_base
  base-with_base (AnySocket.datagram s) b = refl
  base-with_base (AnySocket.client s) b = refl
  base-with_base (AnySocket.server s) b = refl

  abbrev with_ring : ℕ → E.ring.Rep → Interface → Interface
  with_ring l ring i = record i {
    heap = update i.heap l (with_base (i.heap l) (record (base (i.heap l)) { ringbuf = ring }));
  }

  ring_of-with_ring :
      (l : ℕ) (ring : E.ring.Rep) (i : Interface) → ring_of l (with_ring l ring i) ≡ ring
  ring_of-with_ring l ring i =
      ap (λ s. (base s).ringbuf) (update_self i.heap l _)
      ∙ ap (λ b. b.ringbuf)
          (base-with_base (i.heap l) (record (base (i.heap l)) { ringbuf = ring }))

  -- A byte that is there is taken at once.
  timed_read-ready :
      (rs : List Round) (start l : ℕ) (i : Interface)
      → 0 < available l i
      → timed_read rs start l i
        ≡ some (got (get (ring_of l i)).0 (with_ring l (get (ring_of l i)).1 i))
  unfolding timed_read take_byte
  timed_read-ready [] start l i h = rw (lt→ltb _ _ h) refl
  timed_read-ready (r ∷ rs) start l i h = rw (lt→ltb _ _ h) refl

  -- What `read` leaves when enough bytes are there: `bs` are read.
  pub record Reads (l n : ℕ) (i j : Interface) (bs : List ℕ) : Type 0 where
    pub many : length bs ≡ n
    pub taken : unread l i ≡ bs ++ unread l j
    pub kept : available l j + n ≡ available l i
    pub line : j.tx ≡ i.tx

  available_lem : (l : ℕ) (i : Interface) → available l i ≡ E.ring.available (ring_of l i)
  unfolding available
  available_lem l i = refl

  unread_lem : (l : ℕ) (i : Interface) → unread l i ≡ queue (ring_of l i)
  unfolding unread
  unread_lem l i = refl

  read_bytes-suc :
      (c : Call) (cs : List Call) (n l b : ℕ) (i j k : Interface) (bs : List ℕ)
      → timed_read c.rounds c.start l i ≡ some (got b j)
      → read_bytes cs n l j ≡ some (finished bs k)
      → read_bytes (c ∷ cs) (suc n) l i ≡ some (finished (b ∷ bs) k)
  unfolding read_bytes with_byte
  read_bytes-suc c cs n l b i j k bs now later = rw now (rw later refl)

  -- With `n` bytes or more in its ring buffer, `read` of `n` bytes returns at once with the `n` oldest
  -- ones, in order; they are gone from the buffer, the others are still there, and nothing is sent.
  pub read_bytes-Reads :
      (calls : List Call) (n l : ℕ) (i : Interface)
      → n ≤ length calls
      → n ≤ available l i
      → (bs : List ℕ) × (j : Interface) × (read_bytes calls n l i ≡ some (finished bs j))
        × Reads l n i j bs
  read_bytes-Reads calls zero l i enough there = (
    [],
    i,
    unfold read_bytes in refl,
    record { many = refl; taken = refl; kept = omega arith; line = refl },
  )
  read_bytes-Reads [] (suc n) l i enough there = absurd (omega arith)
  read_bytes-Reads (c ∷ cs) (suc n) l i enough there =
      let some_byte : 0 < E.ring.available (ring_of l i) = omega (arith, available_lem l i) in
      let ring : E.ring.Rep = (get (ring_of l i)).1 in
      let j : Interface = with_ring l ring i in
      let left : available l j ≡ E.ring.available ring =
        available_lem l j ∙ ap E.ring.available (ring_of-with_ring l ring i) in
      let fewer : suc (E.ring.available ring) ≡ E.ring.available (ring_of l i) =
        available-get (ring_of l i) some_byte in
      let (bs, k, rest, g) =
        read_bytes-Reads cs n l j (omega arith) (omega (arith, left, fewer, available_lem l i)) in
      (
        (get (ring_of l i)).0 ∷ bs,
        k,
        read_bytes-suc c cs n l _ i j k bs (timed_read-ready c.rounds c.start l i (omega arith))
            rest,
        record {
          many = ap suc g.many;
          taken =
              unread_lem l i
              ∙ queue-get (ring_of l i) some_byte
              ∙ ap (λ xs. (get (ring_of l i)).0 ∷ xs)
                  (ap queue (sym (ring_of-with_ring l ring i)) ∙ sym (unread_lem l j) ∙ g.taken);
          kept = omega (arith, g.kept, left, fewer, available_lem l i);
          line = g.line;
        },
      )

  -- Rounds that bring nothing, the last of them at the timeout or past it.
  abbrev pub Silent : ℕ → ℕ → List Round → Type 0
  Silent timeout start [] = ⊥
  Silent timeout start (r ∷ rs) =
      (r.arrived ≡ [])
      × ((timeout ≤ elapsed r.after start)
          ⊎ (elapsed r.after start < timeout) × Silent timeout start rs)

  pub timed_read-Silent :
      (rs : List Round) (start l : ℕ) (i : Interface)
      → available l i ≡ 0
      → Silent (base (i.heap l)).timeout start rs
      → timed_read rs start l i ≡ some (nothing i)
  unfolding timed_read read
  timed_read-Silent [] start l i empty h = absurd h
  timed_read-Silent (r ∷ rs) start l i empty (brings, inl late) =
      rw empty (rw brings (ground arith))
  timed_read-Silent (r ∷ rs) start l i empty (brings, inr (early, h)) =
      rw empty (rw brings (rw (lt→ltb _ _ early) (timed_read-Silent rs start l i empty h)))
