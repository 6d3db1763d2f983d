-- ===== src/Interface/Arrivals.antt =====
-- Interface::read handles the packets that the parser finds, in order.
use pico_lan.Prelude.{
  ℕ, ◌≡◌, refl, sym, ap, ◌∙◌, Bool, true, false, ◌||◌, Option, none, some, List, [], ◌∷◌, ◌++◌,
  ◌==◌, if◌then◌else◌, option_to_list, ◌>>=◌, >>=-eq-some,
}
use pico_lan.Etk.{Etk}
use pico_lan.Etk.Items.{items}
use pico_lan.Serialiser.Parser
use pico_lan.Serialiser.Parser.{Parser, read_all}
use pico_lan.Serialiser.Parser.Steps.{read_all-cons}
use pico_lan.Serialiser.Pack.{Packet}
use pico_lan.Serialiser.Pack.Datagram.{DatagramPack}
use pico_lan.Interface.{
  Interface, port_of, broadcast_addr, multicast_addr, deliver, deliver_all, datagram_pack_handler,
  handle, handle_option, read,
}

module _ ⦃E : Etk⦄ where
  -- The interface with another parser.
  abbrev pub with_rx : Interface → Parser → Interface
  with_rx i r = record i { rx = r }

  unfoldable pub handle_all : List Packet → Interface → Interface
  handle_all [] i = i
  handle_all (p ∷ ps) i = handle_all ps (handle p i)

  -- Whether a datagram is for this interface.
  abbrev pub for_us : DatagramPack → Interface → Bool
  for_us p i =
      p.dest_addr == i.address || p.dest_addr == broadcast_addr || p.dest_addr == multicast_addr

  pub datagram_pack_handler_lem :
      (p : DatagramPack) (i : Interface)
      → datagram_pack_handler p i
        ≡ (if for_us p i then deliver_all p (items E.sockets i.sockets) i else i)
  unfolding datagram_pack_handler
  datagram_pack_handler_lem p i = refl

  pub deliver_all-cons :
      (p : DatagramPack) (l : ℕ) (ls : List ℕ) (i : Interface)
      → deliver_all p (l ∷ ls) i ≡ deliver_all p ls (deliver p l i)
  unfolding deliver_all
  deliver_all-cons p l ls i = refl

  pub handle-datagram :
      (p : DatagramPack) (i : Interface) → handle (Packet.datagram p) i ≡ datagram_pack_handler p i
  unfolding handle
  handle-datagram p i = refl

  handle_option-some : (p : Packet) (i : Interface) → handle_option (some p) i ≡ handle p i
  unfolding handle_option
  handle_option-some p i = refl

  pub read-cons :
      (i : Interface) (c : ℕ) (cs : List ℕ)
      → read i (c ∷ cs)
        ≡ (do (rx', m) ← Parser.read i.rx c; read (handle_option m (with_rx i rx')) cs)
  unfolding read
  read-cons i c cs = refl

  if-with_rx :
      (b : Bool) (x y : Interface) (r : Parser)
      → (if b then with_rx x r else with_rx y r) ≡ with_rx (if b then x else y) r
  if-with_rx true x y r = refl
  if-with_rx false x y r = refl

  deliver-with_rx :
      (p : DatagramPack) (l : ℕ) (i : Interface) (r : Parser)
      → deliver p l (with_rx i r) ≡ with_rx (deliver p l i) r
  unfolding deliver
  deliver-with_rx p l i r = if-with_rx (port_of (i.heap l) == p.port) _ i r

  deliver_all-with_rx :
      (p : DatagramPack) (ls : List ℕ) (i : Interface) (r : Parser)
      → deliver_all p ls (with_rx i r) ≡ with_rx (deliver_all p ls i) r
  deliver_all-with_rx p [] i r = unfold deliver_all in refl
  deliver_all-with_rx p (l ∷ ls) i r =
      deliver_all-cons p l ls (with_rx i r)
      ∙ ap (deliver_all p ls) (deliver-with_rx p l i r)
      ∙ deliver_all-with_rx p ls (deliver p l i) r
      ∙ ap (λ j. with_rx j r) (sym (deliver_all-cons p l ls i))

  datagram_pack_handler-with_rx :
      (p : DatagramPack) (i : Interface) (r : Parser)
      → datagram_pack_handler p (with_rx i r) ≡ with_rx (datagram_pack_handler p i) r
  datagram_pack_handler-with_rx p i r =
      datagram_pack_handler_lem p (with_rx i r)
      ∙ ap (λ j. if for_us p i then j else with_rx i r)
          (deliver_all-with_rx p (items E.sockets i.sockets) i r)
      ∙ if-with_rx (for_us p i) (deliver_all p (items E.sockets i.sockets) i) i r
      ∙ ap (λ j. with_rx j r) (sym (datagram_pack_handler_lem p i))

  -- No handler reads or writes the parser.
  pub handle-with_rx :
      (p : Packet) (i : Interface) (r : Parser) → handle p (with_rx i r) ≡ with_rx (handle p i) r
  handle-with_rx (Packet.get_addr_list p) i r = unfold handle in refl
  handle-with_rx (Packet.addr p) i r = unfold handle in refl
  handle-with_rx (Packet.ping p) i r = unfold handle in refl
  handle-with_rx (Packet.ping_echo p) i r = unfold handle in refl
  handle-with_rx (Packet.datagram p) i r =
      handle-datagram p (with_rx i r)
      ∙ datagram_pack_handler-with_rx p i r
      ∙ ap (λ j. with_rx j r) (sym (handle-datagram p i))
  handle-with_rx (Packet.subscribe p) i r = unfold handle in refl

  handle_option-with_rx :
      (m : Option Packet) (i : Interface) (r : Parser)
      → handle_option m (with_rx i r) ≡ with_rx (handle_option m i) r
  handle_option-with_rx none i r = unfold handle_option in refl
  handle_option-with_rx (some p) i r =
      handle_option-some p (with_rx i r)
      ∙ handle-with_rx p i r
      ∙ ap (λ j. with_rx j r) (sym (handle_option-some p i))

  handle_all-with_rx :
      (ps : List Packet) (i : Interface) (r : Parser)
      → handle_all ps (with_rx i r) ≡ with_rx (handle_all ps i) r
  unfolding handle_all
  handle_all-with_rx [] i r = refl
  handle_all-with_rx (p ∷ ps) i r =
      ap (handle_all ps) (handle-with_rx p i r) ∙ handle_all-with_rx ps (handle p i) r

  handle_all-option :
      (m : Option Packet) (ps : List Packet) (i : Interface)
      → handle_all (option_to_list m ++ ps) i ≡ handle_all ps (handle_option m i)
  unfolding handle_all
  handle_all-option none ps i = unfold handle_option in refl
  handle_all-option (some p) ps i = ap (handle_all ps) (sym (handle_option-some p i))

  -- Reading bytes is parsing them and then handling the packets that they hold, one by one.
  pub read-handle_all :
      (i : Interface) (cs : List ℕ) (r : Parser) (ps : List Packet)
      → read_all i.rx cs ≡ some (r, ps)
      → read i cs ≡ some (with_rx (handle_all ps i) r)
  read-handle_all i [] r ps e =
      unfold read read_all handle_all in ap (λ o. do q ← o; some (with_rx (handle_all q.1 i) q.0)) e
  read-handle_all i (c ∷ cs) r ps e =
      let ((p1, m), now, later) = >>=-eq-some _ _ (sym (read_all-cons i.rx c cs) ∙ e) in
      let ((p2, ms), rest, done) = >>=-eq-some _ _ later in
      read-cons i c cs
      ∙ ap (λ o. do (rx', m') ← o; read (handle_option m' (with_rx i rx')) cs) now
      ∙ ap (λ j. read j cs) (handle_option-with_rx m i p1)
      ∙ read-handle_all (with_rx (handle_option m i) p1) cs p2 ms rest
      ∙ ap (λ j. some (with_rx j p2)) (handle_all-with_rx ms (handle_option m i) p1)
      ∙ ap (λ j. some (with_rx j p2)) (sym (handle_all-option m ms i))
      ∙ ap (λ o. do q ← o; some (with_rx (handle_all q.1 i) q.0)) done
