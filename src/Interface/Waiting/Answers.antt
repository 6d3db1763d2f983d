-- ===== src/Interface/Waiting/Answers.antt =====
-- When the waiting loops end, and what with.
use pico_lan.Prelude.{
  ℕ, ◌≤◌, ◌<◌, ◌≡◌, ◌≢◌, refl, sym, ap, ◌∙◌, Bool, true, false, Option, none, some, List, [], ◌∷◌,
  ◌++◌, ◌==◌, ltb, if◌then◌else◌, u16, ◌>>=◌, All, lt→ltb, ltb→lt, ne→==, ==_iff, inl, inr, ◌⊎◌,
  arith,
}
use pico_lan.Etk.{Etk}
use pico_lan.Serialiser.Pack.{Packet, send}
use pico_lan.Interface.{Interface, send_packet, read}
use pico_lan.Interface.Echo.{ping_packet, echo_packet, ping_echoed}
use pico_lan.Interface.Waiting.{
  Round, elapsed, Outcome, done, timed_out, waiting, ping_loop, ping, addr_list_loop, get_addr_list,
}

-- In some round the clock stands at the timeout or past it when the loop tests it.
abbrev pub Expires : ℕ → ℕ → List Round → Type 0
Expires start timeout [] = ⊥
Expires start timeout (r ∷ rs) = (timeout ≤ elapsed r.before start) ⊎ Expires start timeout rs

-- A round that comes before the timeout and brings nothing.
abbrev pub IsIdle : ℕ → ℕ → Round → Type 0
IsIdle start timeout r = (elapsed r.before start < timeout) × (r.arrived ≡ [])

module _ ⦃E : Etk⦄ where
  read-nil : (i : Interface) → read i [] ≡ some i
  unfolding read
  read-nil i = refl

  -- A round before the timeout reads what has arrived and compares.
  ping_loop-round :
      (r : Round) (rs : List Round) (start timeout payload : ℕ) (i j : Interface)
      → elapsed r.before start < timeout
      → read i r.arrived ≡ some j
      → ping_loop (r ∷ rs) start timeout payload i ≡ (
          if j.ping_echo_payload == payload
          then some (done (elapsed r.after start) j)
          else ping_loop rs start timeout payload j)
  unfolding ping_loop
  ping_loop-round r rs start timeout payload i j early e = rw (lt→ltb _ _ early) (rw e refl)

  ping_loop-idle :
      (quiet rs : List Round) (start timeout payload : ℕ) (i : Interface)
      → All (IsIdle start timeout) quiet
      → i.ping_echo_payload ≢ payload
      → ping_loop (quiet ++ rs) start timeout payload i ≡ ping_loop rs start timeout payload i
  ping_loop-idle [] rs start timeout payload i h ne = refl
  ping_loop-idle (q ∷ qs) rs start timeout payload i ((early, nothing), h) ne =
      ping_loop-round q (qs ++ rs) start timeout payload i i early
        (ap (read i) nothing ∙ read-nil i)
      ∙ ap
          (λ b.
            if b
            then some (done (elapsed q.after start) i)
            else ping_loop (qs ++ rs) start timeout payload i)
          (ne→== _ _ ne)
      ∙ ping_loop-idle qs rs start timeout payload i h ne

  ping_lem :
      (a : Interface) (dest timeout now start : ℕ) (rs : List Round)
      → ping dest timeout now start rs a
        ≡ ping_loop rs start timeout (u16 now) (send_packet (ping_packet a dest (u16 now)) a)
  unfolding ping
  ping_lem a dest timeout now start rs = refl

  -- The last round of a ping that is answered.
  ping_loop-found :
      (r : Round) (rs : List Round) (start timeout payload : ℕ) (i j : Interface)
      → elapsed r.before start < timeout
      → read i r.arrived ≡ some j
      → j.ping_echo_payload ≡ payload
      → ping_loop (r ∷ rs) start timeout payload i ≡ some (done (elapsed r.after start) j)
  ping_loop-found r rs start timeout payload i j early e found =
      ping_loop-round r rs start timeout payload i j early e
      ∙ ap
          (λ b.
            if b
            then some (done (elapsed r.after start) j)
            else ping_loop rs start timeout payload j)
          ((==_iff _ _).1 found)

  send_packet-payload :
      (p : Packet) (i : Interface) → (send_packet p i).ping_echo_payload ≡ i.ping_echo_payload
  unfolding send_packet
  send_packet-payload p i = refl

  -- A ping is answered: interface `b` reads what `ping` of interface `a` has put on a fresh line, and
  -- what `b` then sends reaches `a` in one round before the timeout, after any number of rounds that
  -- brought nothing. Then `ping` returns the time of that round. This holds when `a` has not kept the
  -- same payload from an earlier echo, and neither parser waits for an escaped byte.
  pub ping-answered :
      (a b : Interface) (dest timeout now start : ℕ) (quiet rs : List Round) (r : Round)
      → a.tx.sent ≡ []
      → b.tx.sent ≡ []
      → a.rx.stuff_flag ≡ false
      → b.rx.stuff_flag ≡ false
      → a.ping_echo_payload ≢ u16 now
      → All (IsIdle start timeout) quiet
      → elapsed r.before start < timeout
      → r.arrived ≡ (send (echo_packet b a.address (u16 now)) b.tx).sent
      → (b1 : Interface) × (a2 : Interface) × (read b
            (send_packet (ping_packet a dest (u16 now)) a).tx.sent
          ≡ some b1)
        × (b1.tx.sent ≡ r.arrived)
        × (ping dest timeout now start (quiet ++ (r ∷ rs)) a
            ≡ some (done (elapsed r.after start) a2))
  ping-answered a b dest timeout now start quiet rs r fresh_a fresh_b steady_a steady_b new_payload
        idle early brings =
      let a1 : Interface = send_packet (ping_packet a dest (u16 now)) a in
      let (b1, a2, there, answer, back, held) =
        ping_echoed a b dest (u16 now) fresh_a fresh_b steady_a steady_b (omega arith) in
      let carried : b1.tx.sent ≡ r.arrived = ap (λ t. t.sent) answer ∙ sym brings in
      (
        b1,
        a2,
        there,
        carried,
        ping_lem a dest timeout now start (quiet ++ (r ∷ rs))
            ∙ ping_loop-idle quiet (r ∷ rs) start timeout (u16 now) a1 idle
                (λ e. new_payload (sym (send_packet-payload (ping_packet a dest (u16 now)) a) ∙ e))
            ∙ ping_loop-found r rs start timeout (u16 now) a1 a2 early
                (ap (read a1) (sym carried) ∙ back) held,
      )

  -- A ping whose payload equals that of an earlier echo returns in the first round, though nothing
  -- has arrived.
  pub ping-stale :
      (a : Interface) (dest timeout now start : ℕ) (rs : List Round) (r : Round)
      → a.ping_echo_payload ≡ u16 now
      → IsIdle start timeout r
      → (a2 : Interface) × (ping dest timeout now start (r ∷ rs) a
          ≡ some (done (elapsed r.after start) a2))
  ping-stale a dest timeout now start rs r same (early, nothing) =
      let a1 : Interface = send_packet (ping_packet a dest (u16 now)) a in
      (
        a1,
        ping_lem a dest timeout now start (r ∷ rs)
            ∙ ping_loop-found r rs start timeout (u16 now) a1 a1 early
                (ap (read a1) nothing ∙ read-nil a1)
                (send_packet-payload (ping_packet a dest (u16 now)) a ∙ same),
      )

  bind-ne_waiting :
      (o : Option Interface) (f : Interface → Option Outcome) (j : Interface)
      → ((k : Interface) → f k ≢ some (waiting j))
      → (o >>= f) ≢ some (waiting j)
  bind-ne_waiting none f j h e = cc
  bind-ne_waiting (some k) f j h e = h k e

  if-ne_waiting :
      (b : Bool) (t : ℕ) (k j : Interface) (rest : Option Outcome)
      → rest ≢ some (waiting j)
      → (if b then some (done t k) else rest) ≢ some (waiting j)
  if-ne_waiting true t k j rest h e = cc
  if-ne_waiting false t k j rest h e = h e

  test-ne_waiting :
      (b : Bool) (body : Option Outcome) (i j : Interface)
      → (b ≡ true → body ≢ some (waiting j))
      → (if b then body else some (timed_out i)) ≢ some (waiting j)
  test-ne_waiting true body i j h e = h refl e
  test-ne_waiting false body i j h e = cc

  later :
      (r : Round) (rs : List Round) (start timeout : ℕ)
      → Expires start timeout (r ∷ rs)
      → ltb (elapsed r.before start) timeout ≡ true
      → Expires start timeout rs
  later r rs start timeout (inl late) early =
      let lt : elapsed r.before start < timeout = ltb→lt _ _ early in absurd (omega arith)
  later r rs start timeout (inr h) early = h

  ping_loop-returns :
      (rs : List Round) (start timeout payload : ℕ) (i j : Interface)
      → Expires start timeout rs
      → ping_loop rs start timeout payload i ≢ some (waiting j)
  unfolding ping_loop
  ping_loop-returns [] start timeout payload i j h = absurd h
  ping_loop-returns (r ∷ rs) start timeout payload i j h = test-ne_waiting _ _ i j (λ early.
      bind-ne_waiting (read i r.arrived) _ j (λ k.
        if-ne_waiting (k.ping_echo_payload == payload) _ k j _
          (ping_loop-returns rs start timeout payload k j (later r rs start timeout h early))))

  addr_list_loop-returns :
      (rs : List Round) (start timeout : ℕ) (i j : Interface)
      → Expires start timeout rs
      → addr_list_loop rs start timeout i ≢ some (waiting j)
  unfolding addr_list_loop
  addr_list_loop-returns [] start timeout i j h = absurd h
  addr_list_loop-returns (r ∷ rs) start timeout i j h = test-ne_waiting _ _ i j (λ early.
      bind-ne_waiting (read i r.arrived) _ j (λ k.
        if-ne_waiting k.addr_list_recved _ k j _
          (addr_list_loop-returns rs start timeout k j (later r rs start timeout h early))))

  -- Once the clock has passed the timeout in a round, `ping` and `get_addr_list` have returned: they
  -- are not still waiting, whatever has arrived.
  pub ping-returns :
      (rs : List Round) (dest now start timeout : ℕ) (i j : Interface)
      → Expires start timeout rs
      → (ping dest timeout now start rs i ≢ some (waiting j))
        × (get_addr_list timeout start rs i ≢ some (waiting j))
  unfolding ping get_addr_list
  ping-returns rs dest now start timeout i j h =
      (ping_loop-returns rs start timeout _ _ j h, addr_list_loop-returns rs start timeout _ j h)
