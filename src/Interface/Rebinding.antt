-- ===== src/Interface/Rebinding.antt =====
-- Two limits of binding: a list of sockets that is full, and a socket that is destroyed twice.
use pico_lan.Prelude.{
  ℕ, zero, suc, ◌+◌, ◌<◌, ◌≤◌, ◌≡◌, ◌≢◌, refl, sym, ap, subst, ◌∙◌, Bool, true, false, List, [],
  ◌∷◌, ◌++◌, append-nil, slice, slice_ext, update, ℕ_discrete, ne→==, All, arith, if◌then◌else◌,
}
use pico_lan.Etk.{Etk}
use pico_lan.Etk.Items.{items, items-append, IgnoresFull}
use pico_lan.Serialiser.Pack.{Packet}
use pico_lan.Serialiser.Pack.Datagram.{DatagramPack}
use pico_lan.Interface.{Interface, AnySocket, base, port_of, handle}
use pico_lan.Interface.Binding.{port_taken, bind, unbind_socket}
use pico_lan.Interface.Arrivals.{for_us, datagram_pack_handler_lem, handle-datagram}
use pico_lan.Interface.Reading.{destroy}
use pico_lan.Interface.Delivery.{Elsewhere, Elsewhere-update, update-port, deliver_all_miss}
use pico_lan.Interface.Ports.{bound_as, bound_as-port, unbind_socket-removes}

module _ ⦃E : Etk⦄ where
  open E.sockets use {size, get, append}

  none_taken :
      (heap : ℕ → AnySocket) (port : ℕ) (ls : List ℕ)
      → Elsewhere heap port ls
      → port_taken heap port ls ≡ false
  unfolding port_taken
  none_taken heap port [] h = refl
  none_taken heap port (l ∷ ls) (h, hs) = rw (ne→== _ port h) (none_taken heap port ls hs)

  -- What `bind` does when the port is free.
  bind-free :
      (l : ℕ) (i : Interface)
      → Elsewhere i.heap (port_of (i.heap l)) (items E.sockets i.sockets)
      → bind l i ≡ (
        record i { heap = update i.heap l (bound_as (i.heap l)); sockets = append i.sockets l },
        true,
      )
  unfolding bind
  bind-free l i away =
      rw (none_taken i.heap (port_of (i.heap l)) (items E.sockets i.sockets) away) refl

  -- `bind` on an interface with 16 sockets, none on the socket's port, returns true, but the socket is
  -- not among those that are bound, and no datagram to its port has any effect. A list of sockets that
  -- is full ignores what is appended.
  pub bind-unlisted :
      (l : ℕ) (i : Interface) (p : DatagramPack)
      → IgnoresFull E.sockets
      → size i.sockets ≡ 16
      → Elsewhere i.heap (port_of (i.heap l)) (items E.sockets i.sockets)
      → p.port ≡ port_of (i.heap l)
      → let (j, bound) = bind l i in
        (bound ≡ true)
        × (items E.sockets j.sockets ≡ items E.sockets i.sockets)
        × (handle (Packet.datagram p) j ≡ j)
  bind-unlisted l i p drops full away same =
      let j : Interface = record i {
        heap = update i.heap l (bound_as (i.heap l));
        sockets = append i.sockets l;
      } in
      let listed : items E.sockets j.sockets ≡ items E.sockets i.sockets = drops i.sockets l full in
      let nowhere : Elsewhere j.heap p.port (items E.sockets j.sockets) =
        subst (Elsewhere j.heap p.port) (sym listed) (
          Elsewhere-update i.heap p.port l (bound_as (i.heap l)) _ (bound_as-port (i.heap l))
            (subst (λ n. Elsewhere i.heap n (items E.sockets i.sockets)) (sym same) away)) in
      rw (bind-free l i away) (
        refl,
        listed,
        handle-datagram p j
            ∙ datagram_pack_handler_lem p j
            ∙ ap (λ k. if for_us p j then k else j)
                (deliver_all_miss p (items E.sockets j.sockets) j nowhere)
            ∙ same_either (for_us p j) j,
      )
    where
      same_either : (b : Bool) (j : Interface) → (if b then j else j) ≡ j
      same_either true j = refl
      same_either false j = refl

  All-slice :
      (P : ℕ → Type 0) (f : ℕ → ℕ) (k n j : ℕ) → All P (slice f k n) → k ≤ j → j < k + n → P (f j)
  All-slice P f k zero j h le lt = absurd (omega arith)
  All-slice P f k (suc n) j (h, hs) le lt = elim (ℕ_discrete k j) [
    | yes e ↦ subst (λ m. P (f m)) e h
    | no ne ↦ All-slice P f (k + 1) n j hs (omega arith) (omega arith)
  ]

  update_elsewhere :
      (heap : ℕ → AnySocket) (l k : ℕ) (s : AnySocket) → k ≢ l → update heap l s k ≡ heap k
  update_elsewhere heap l k s ne = rw (ne→== k l ne) refl

  -- What `destroy` does with a socket that is marked as bound.
  destroy_lem :
      (l : ℕ) (i : Interface) → (base (i.heap l)).bound ≡ true → destroy l i ≡ unbind_socket l i
  unfolding destroy
  destroy_lem l i e = rw e refl

  -- A socket that has been destroyed is still marked as bound. When another socket is bound on its port
  -- then, with a free place and no other socket on that port, and the first one is destroyed again,
  -- the second is taken off the list.
  pub destroy-bind :
      (a b : ℕ) (i : Interface)
      → a ≢ b
      → (base (i.heap a)).bound ≡ true
      → port_of (i.heap a) ≡ port_of (i.heap b)
      → size i.sockets < 16
      → Elsewhere i.heap (port_of (i.heap b)) (items E.sockets i.sockets)
      → let (j, bound) = bind b i in
        (bound ≡ true)
        × (items E.sockets j.sockets ≡ items E.sockets i.sockets ++ (b ∷ []))
        × (items E.sockets (destroy a j).sockets ≡ items E.sockets i.sockets)
  destroy-bind a b i ne marked same free away =
      let n : ℕ = size i.sockets in
      let j : Interface = record i {
        heap = update i.heap b (bound_as (i.heap b));
        sockets = append i.sockets b;
      } in
      let kept : (k : ℕ) → port_of (j.heap k) ≡ port_of (i.heap k) =
        λ k. update-port i.heap b k (bound_as (i.heap b)) (bound_as-port (i.heap b)) in
      let old : (k : ℕ) → k < n → get j.sockets k ≡ get i.sockets k =
        λ k h. E.sockets.get-append_old i.sockets b k free h in
      let last : get j.sockets n ≡ b = E.sockets.get-append_last i.sockets b free in
      let size_j : size j.sockets ≡ n + suc 0 =
        E.sockets.size-append i.sockets b free ∙ omega arith in
      rw (bind-free b i away) (
        refl,
        items-append E.sockets i.sockets b free,
        ap (λ x. items E.sockets x.sockets)
              (destroy_lem a j (
                ap (λ s. (base s).bound) (update_elsewhere i.heap b a (bound_as (i.heap b)) ne)
                ∙ marked))
            ∙ unbind_socket-removes a n 0 j size_j
                (ap (λ l. port_of (j.heap l)) last ∙ kept b ∙ sym same ∙ sym (kept a))
                (λ k lt other e.
                  All-slice (λ l. port_of (i.heap l) ≢ port_of (i.heap b)) (get i.sockets) 0 n k
                    away (omega arith) (omega (arith, size_j, lt))
                    (sym (kept (get i.sockets k))
                      ∙ ap (λ l. port_of (j.heap l)) (sym (old k (omega (arith, size_j, lt))))
                      ∙ e
                      ∙ kept a
                      ∙ same))
            ∙ append-nil (slice (get j.sockets) 0 n)
            ∙ slice_ext (get j.sockets) (get i.sockets) 0 n (λ k le lt. old k (omega arith)),
      )
