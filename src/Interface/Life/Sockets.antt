-- ===== src/Interface/Life/Sockets.antt =====
-- Whatever a program does with an interface, the bound sockets are on different ports.
use pico_lan.Prelude.{
  ℕ, zero, suc, ◌+◌, ◌-◌, ◌<◌, ◌≡◌, sym, ap, subst, ◌∙◌, List, [], ◌∷◌, ◌++◌, slice, slice-append,
  update, dec_lt, ℕ_discrete, Bool-cases, inl, inr, arith,
}
use pico_lan.Etk.{Etk}
use pico_lan.Etk.Items.{items, items-remove, IgnoresFull}
use pico_lan.Interface.{Interface, AnySocket, base, port_of}
use pico_lan.Interface.Binding.{port_taken, bind, unbind_from, unbind_socket}
use pico_lan.Interface.Reading.{destroy}
use pico_lan.Interface.Delivery.{Elsewhere, update-port}
use pico_lan.Interface.Ports.{
  Distinct, bind-Distinct, unbind_from-hit, unbind_from-miss, unbind_from_end, bound_as,
  bound_as-port,
}
use pico_lan.Interface.Steady.{KeepsPorts}

module _ ⦃E : Etk⦄ where
  open E.sockets use {size, get, remove, append}

  -- The ports of the sockets bound to `i` are all different.
  abbrev pub HasDistinctPorts : Interface → Type 0
  HasDistinctPorts i = Distinct i.heap (items E.sockets i.sockets)

  Elsewhere-ports :
      (f g : ℕ → AnySocket) (port : ℕ) (ls : List ℕ)
      → ((l : ℕ) → port_of (g l) ≡ port_of (f l))
      → Elsewhere f port ls
      → Elsewhere g port ls
  Elsewhere-ports f g port [] same h = tt
  Elsewhere-ports f g port (l ∷ ls) same (h, hs) =
      (λ e. h (sym (same l) ∙ e), Elsewhere-ports f g port ls same hs)

  Distinct-ports :
      (f g : ℕ → AnySocket) (ls : List ℕ)
      → ((l : ℕ) → port_of (g l) ≡ port_of (f l))
      → Distinct f ls
      → Distinct g ls
  Distinct-ports f g [] same d = tt
  Distinct-ports f g (l ∷ ls) same (d, ds) = (
    subst (λ port. Elsewhere g port ls) (sym (same l))
        (Elsewhere-ports f g (port_of (f l)) ls same d),
    Distinct-ports f g ls same ds,
  )

  pub KeepsPorts-HasDistinctPorts :
      {i j : Interface} → KeepsPorts i j → HasDistinctPorts i → HasDistinctPorts j
  KeepsPorts-HasDistinctPorts {i} {j} k d =
      subst (λ s. Distinct j.heap (items E.sockets s)) (sym k.same_sockets)
        (Distinct-ports i.heap j.heap (items E.sockets i.sockets) k.same_ports d)

  -- One element less.
  Elsewhere-drop :
      (heap : ℕ → AnySocket) (port m : ℕ) (front back : List ℕ)
      → Elsewhere heap port (front ++ (m ∷ back))
      → Elsewhere heap port (front ++ back)
  Elsewhere-drop heap port m [] back (h, hs) = hs
  Elsewhere-drop heap port m (k ∷ front) back (h, hs) =
      (h, Elsewhere-drop heap port m front back hs)

  Distinct-drop :
      (heap : ℕ → AnySocket) (m : ℕ) (front back : List ℕ)
      → Distinct heap (front ++ (m ∷ back))
      → Distinct heap (front ++ back)
  Distinct-drop heap m [] back (d, ds) = ds
  Distinct-drop heap m (k ∷ front) back (d, ds) =
      (Elsewhere-drop heap (port_of (heap k)) m front back d, Distinct-drop heap m front back ds)

  -- The elements around the one at index `k`.
  items_around :
      (l : E.sockets.Rep) (k rest : ℕ)
      → size l ≡ k + suc rest
      → items E.sockets l ≡ slice (get l) 0 k ++ (get l k ∷ slice (get l) (k + 1) rest)
  items_around l k rest e =
      ap (slice (get l) 0) e
      ∙ slice-append (get l) 0 k (suc rest)
      ∙ ap (λ j. slice (get l) 0 k ++ slice (get l) j (suc rest)) {x = 0 + k} {y = k} (omega arith)

  remove-HasDistinctPorts :
      (i : Interface) (k : ℕ)
      → k < size i.sockets
      → HasDistinctPorts i
      → HasDistinctPorts (record i { sockets = remove i.sockets k })
  remove-HasDistinctPorts i k lt d =
      let rest : ℕ = size i.sockets - suc k in
      let e : size i.sockets ≡ k + suc rest = omega arith in
      subst (Distinct i.heap) (sym (items-remove E.sockets i.sockets k rest e)) (
        Distinct-drop i.heap (get i.sockets k) (slice (get i.sockets) 0 k)
          (slice (get i.sockets) (k + 1) rest)
          (subst (Distinct i.heap) (items_around i.sockets k rest e) d))

  unbind_from-HasDistinctPorts :
      (fuel k port : ℕ) (i : Interface)
      → HasDistinctPorts i
      → HasDistinctPorts (unbind_from fuel k port i)
  unbind_from-HasDistinctPorts zero k port i d = unfold unbind_from in d
  unbind_from-HasDistinctPorts (suc fuel) k port i d = elim (dec_lt k (size i.sockets)) [
    | no np ↦ subst HasDistinctPorts (sym (unbind_from_end (suc fuel) k port i (omega arith))) d
    | yes p ↦ elim (ℕ_discrete (port_of (i.heap (get i.sockets k))) port) [
      | yes e ↦
          subst HasDistinctPorts (sym (unbind_from-hit fuel k port i p e))
            (unbind_from-HasDistinctPorts fuel (k + 1) port _ (remove-HasDistinctPorts i k p d))
      | no ne ↦
          subst HasDistinctPorts (sym (unbind_from-miss fuel k port i p ne))
            (unbind_from-HasDistinctPorts fuel (k + 1) port i d)
    ]
  ]

  pub unbind_socket-HasDistinctPorts :
      (l : ℕ) (i : Interface) → HasDistinctPorts i → HasDistinctPorts (unbind_socket l i)
  unfolding unbind_socket
  unbind_socket-HasDistinctPorts l i d =
      unbind_from-HasDistinctPorts (size i.sockets) 0 (port_of (i.heap l)) i d

  pub destroy-HasDistinctPorts :
      (l : ℕ) (i : Interface) → HasDistinctPorts i → HasDistinctPorts (destroy l i)
  unfolding destroy
  destroy-HasDistinctPorts l i d = elim (Bool-cases (base (i.heap l)).bound) [
    | inl e ↦ rw e (unbind_socket-HasDistinctPorts l i d)
    | inr e ↦ rw e d
  ]

  -- A full list of sockets: at most the socket is marked as bound.
  bind_full :
      (l : ℕ) (i : Interface)
      → IgnoresFull E.sockets
      → size i.sockets ≡ 16
      → HasDistinctPorts i
      → HasDistinctPorts (bind l i).0
  unfolding bind
  bind_full l i drops full d =
      elim (Bool-cases (port_taken i.heap (port_of (i.heap l)) (items E.sockets i.sockets))) [
        | inl e ↦ rw e d
        | inr e ↦ rw e (
            subst (Distinct (update i.heap l (bound_as (i.heap l)))) (sym (drops i.sockets l full))
              (Distinct-ports i.heap (update i.heap l (bound_as (i.heap l))) _
                (λ k. update-port i.heap l k (bound_as (i.heap l)) (bound_as-port (i.heap l))) d))
      ]

  pub bind-HasDistinctPorts :
      (l : ℕ) (i : Interface)
      → IgnoresFull E.sockets
      → HasDistinctPorts i
      → HasDistinctPorts (bind l i).0
  bind-HasDistinctPorts l i drops d = elim (dec_lt (size i.sockets) 16) [
    | yes free ↦ elim (bind-Distinct l i free d) [
      | inl (bound, away, listed, all) ↦ all
      | inr (refused, taken, same) ↦ subst HasDistinctPorts (sym same) d
    ]
    | no full ↦ bind_full l i drops (omega (arith, full, E.sockets.size-le-cap i.sockets)) d
  ]
