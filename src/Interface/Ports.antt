-- ===== src/Interface/Ports.antt =====
-- No two bound sockets listen on the same port.
use pico_lan.Prelude.{
  ℕ, zero, suc, ◌+◌, ◌≤◌, ◌<◌, ◌≡◌, ◌≢◌, refl, sym, ap, subst, ◌∙◌, Bool, true, false, List, [],
  ◌∷◌, ◌++◌, dec_lt, ℕ_discrete, lt→ltb, update, slice, arith, Bool-cases, inl, inr, ==_iff, ne→==,
  ◌⊎◌,
}
use pico_lan.Etk.{Etk}
use pico_lan.Etk.Items.{items, items-append, items-remove}
use pico_lan.Interface.{Interface, AnySocket, base, with_base, port_of}
use pico_lan.Interface.Binding.{port_taken, bind, unbind_from, unbind_socket}
use pico_lan.Interface.Delivery.{Elsewhere, update-port, Elsewhere-update}

module _ ⦃E : Etk⦄ where
  open E.sockets use {size, get, append, remove}

  -- The ports of the sockets behind these pointers are all different.
  abbrev pub Distinct : (ℕ → AnySocket) → List ℕ → Type 0
  Distinct heap [] = Unit
  Distinct heap (l ∷ ls) = Elsewhere heap (port_of (heap l)) ls × Distinct heap ls

  port_free :
      (heap : ℕ → AnySocket) (port : ℕ) (ls : List ℕ)
      → port_taken heap port ls ≡ false
      → Elsewhere heap port ls
  unfolding port_taken
  port_free heap port [] h = tt
  port_free heap port (l ∷ ls) h = (λ q. (ground arith), port_free heap port ls (ground arith))

  -- One of the sockets behind these pointers is on the port.
  abbrev pub Taken : (ℕ → AnySocket) → ℕ → List ℕ → Type 0
  Taken heap port [] = ⊥
  Taken heap port (l ∷ ls) = (port_of (heap l) ≡ port) ⊎ Taken heap port ls

  port_taken-Taken :
      (heap : ℕ → AnySocket) (port : ℕ) (ls : List ℕ)
      → port_taken heap port ls ≡ true
      → Taken heap port ls
  unfolding port_taken
  port_taken-Taken heap port [] h = absurd (ground arith)
  port_taken-Taken heap port (l ∷ ls) h = elim (ℕ_discrete (port_of (heap l)) port) [
    | yes e ↦ inl e
    | no ne ↦ inr (port_taken-Taken heap port ls (ground arith))
  ]

  Elsewhere-snoc :
      (heap : ℕ → AnySocket) (port l : ℕ) (ls : List ℕ)
      → Elsewhere heap port ls
      → port_of (heap l) ≢ port
      → Elsewhere heap port (ls ++ (l ∷ []))
  Elsewhere-snoc heap port l [] h ne = (ne, tt)
  Elsewhere-snoc heap port l (k ∷ ks) (h, hs) ne = (h, Elsewhere-snoc heap port l ks hs ne)

  Distinct-snoc :
      (heap : ℕ → AnySocket) (l : ℕ) (ls : List ℕ)
      → Distinct heap ls
      → Elsewhere heap (port_of (heap l)) ls
      → Distinct heap (ls ++ (l ∷ []))
  Distinct-snoc heap l [] d h = (tt, tt)
  Distinct-snoc heap l (k ∷ ks) (d, ds) (h, hs) = (
    Elsewhere-snoc heap (port_of (heap k)) l ks d (λ e. h (sym e)),
    Distinct-snoc heap l ks ds hs,
  )

  -- What `bind` comes to.
  abbrev pub BindResult : ℕ → Interface → Interface × Bool → Type 0
  BindResult l i (j, bound) =
      ((bound ≡ true)
        × Elsewhere i.heap (port_of (i.heap l)) (items E.sockets i.sockets)
        × (items E.sockets j.sockets ≡ items E.sockets i.sockets ++ (l ∷ []))
        × Distinct j.heap (items E.sockets j.sockets))
      ⊎ ((bound ≡ false) × Taken i.heap (port_of (i.heap l)) (items E.sockets i.sockets) × (j ≡ i))

  -- One round of the loop.
  pub unbind_from-hit :
      (fuel k port : ℕ) (i : Interface)
      → k < size i.sockets
      → port_of (i.heap (get i.sockets k)) ≡ port
      → unbind_from (suc fuel) k port i
        ≡ unbind_from fuel (k + 1) port (record i { sockets = remove i.sockets k })
  unfolding unbind_from
  unbind_from-hit fuel k port i p e = rw (lt→ltb _ _ p) (rw ((==_iff _ _).1 e) refl)

  pub unbind_from-miss :
      (fuel k port : ℕ) (i : Interface)
      → k < size i.sockets
      → port_of (i.heap (get i.sockets k)) ≢ port
      → unbind_from (suc fuel) k port i ≡ unbind_from fuel (k + 1) port i
  unfolding unbind_from
  unbind_from-miss fuel k port i p ne = rw (lt→ltb _ _ p) (rw (ne→== _ _ ne) refl)

  pub unbind_from_end :
      (fuel k port : ℕ) (i : Interface) → size i.sockets ≤ k → unbind_from fuel k port i ≡ i
  unfolding unbind_from
  unbind_from_end zero k port i p = refl
  unbind_from_end (suc fuel) k port i p = ground arith

  -- From index `k` on no socket has the port: nothing changes.
  unbind_from_none :
      (fuel k port : ℕ) (i : Interface)
      → ((j : ℕ) → k ≤ j → j < size i.sockets → port_of (i.heap (get i.sockets j)) ≢ port)
      → unbind_from fuel k port i ≡ i
  unbind_from_none zero k port i h = unfold unbind_from in refl
  unbind_from_none (suc fuel) k port i h = elim (dec_lt k (size i.sockets)) [
    | yes p ↦
        unbind_from-miss fuel k port i p (h k (omega arith) p)
        ∙ unbind_from_none fuel (k + 1) port i (λ j q. h j (omega arith))
    | no np ↦ unbind_from_end (suc fuel) k port i (omega arith)
  ]

  unbind_from_one :
      (fuel k m port : ℕ) (i : Interface)
      → k ≤ m
      → m < size i.sockets
      → m < k + fuel
      → port_of (i.heap (get i.sockets m)) ≡ port
      → ((j : ℕ) → j < size i.sockets → j ≢ m → port_of (i.heap (get i.sockets j)) ≢ port)
      → unbind_from fuel k port i ≡ record i { sockets = remove i.sockets m }
  unbind_from_one zero k m port i p q r e h = absurd (omega arith)
  unbind_from_one (suc fuel) k m port i p q r e h = elim (ℕ_discrete k m) [
    | yes at ↦
        unbind_from-hit fuel k port i (omega arith)
          (subst (λ j. port_of (i.heap (get i.sockets j)) ≡ port) (sym at) e)
        ∙ ap (λ j. unbind_from fuel (k + 1) port (record i { sockets = remove i.sockets j })) at
        ∙ unbind_from_none fuel (k + 1) port (record i { sockets = remove i.sockets m })
            (λ j x y.
              subst (λ l. port_of (i.heap l) ≢ port)
                (sym (
                  E.sockets.get-remove_after i.sockets m j (omega arith)
                    (omega (arith, y, E.sockets.size-remove i.sockets m q))))
                (h (suc j) (omega (arith, y, E.sockets.size-remove i.sockets m q)) (omega arith)))
    | no before ↦
        unbind_from-miss fuel k port i (omega arith) (h k (omega arith) before)
        ∙ unbind_from_one fuel (k + 1) m port i (omega arith) q (omega arith) e h
  ]

  abbrev pub bound_as : AnySocket → AnySocket
  bound_as s = with_base s (record (base s) { bound = true })

  pub bound_as-port : (s : AnySocket) → port_of (bound_as s) ≡ port_of s
  unfolding base with_base
  bound_as-port (AnySocket.datagram s) = refl
  bound_as-port (AnySocket.client s) = refl
  bound_as-port (AnySocket.server s) = refl

  Distinct-update :
      (heap : ℕ → AnySocket) (l : ℕ) (s : AnySocket) (ls : List ℕ)
      → port_of s ≡ port_of (heap l)
      → Distinct heap ls
      → Distinct (update heap l s) ls
  Distinct-update heap l s [] e d = tt
  Distinct-update heap l s (k ∷ ks) e (d, ds) = (
    subst (λ port. Elsewhere (update heap l s) port ks) (sym (update-port heap l k s e))
        (Elsewhere-update heap (port_of (heap k)) l s ks e d),
    Distinct-update heap l s ks e ds,
  )

  bind-free :
      (l : ℕ) (i : Interface)
      → size i.sockets < 16
      → Distinct i.heap (items E.sockets i.sockets)
      → Elsewhere i.heap (port_of (i.heap l)) (items E.sockets i.sockets)
      → Distinct (update i.heap l (bound_as (i.heap l))) (items E.sockets (append i.sockets l))
  bind-free l i free d h =
      subst (Distinct (update i.heap l (bound_as (i.heap l))))
        (sym (items-append E.sockets i.sockets l free))
        (Distinct-update i.heap l (bound_as (i.heap l)) _ (bound_as-port (i.heap l))
          (Distinct-snoc i.heap l _ d h))

  -- `bind` on an interface with a free place, whose sockets are on different ports: either the port of
  -- the socket is free, the socket becomes the last bound one and the ports still differ, or a bound
  -- socket has the port, `bind` returns false and the interface stays as it is.
  pub bind-Distinct :
      (l : ℕ) (i : Interface)
      → size i.sockets < 16
      → Distinct i.heap (items E.sockets i.sockets)
      → BindResult l i (bind l i)
  unfolding bind
  bind-Distinct l i free d =
      elim (Bool-cases (port_taken i.heap (port_of (i.heap l)) (items E.sockets i.sockets))) [
        | inl e ↦ rw e (inr (refl, port_taken-Taken i.heap (port_of (i.heap l)) _ e, refl))
        | inr e ↦ rw e (
            inl (
              refl,
              port_free i.heap (port_of (i.heap l)) _ e,
              items-append E.sockets i.sockets l free,
              bind-free l i free d (port_free i.heap (port_of (i.heap l)) _ e),
            ))
      ]

  -- When the socket at index `m`, and no other, is on the port of the socket to unbind, it is taken
  -- off the list and the others keep their order.
  pub unbind_socket-removes :
      (l m rest : ℕ) (i : Interface)
      → size i.sockets ≡ m + suc rest
      → port_of (i.heap (get i.sockets m)) ≡ port_of (i.heap l)
      → ((j : ℕ)
          → j < size i.sockets
          → j ≢ m
          → port_of (i.heap (get i.sockets j)) ≢ port_of (i.heap l))
      → items E.sockets (unbind_socket l i).sockets
        ≡ slice (get i.sockets) 0 m ++ slice (get i.sockets) (m + 1) rest
  unfolding unbind_socket
  unbind_socket-removes l m rest i e same others =
      ap (λ j. items E.sockets j.sockets)
        (unbind_from_one (size i.sockets) 0 m (port_of (i.heap l)) i (omega arith) (omega arith)
          (omega arith) same others)
      ∙ items-remove E.sockets i.sockets m rest e
