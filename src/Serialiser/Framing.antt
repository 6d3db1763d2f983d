-- ===== src/Serialiser/Framing.antt =====
-- What a frame on the wire is, as a function of the bytes that it carries, and that the sender
-- writes frames.
use pico_lan.Prelude.{
  ℕ, ◌+◌, ◌*◌, ◌/◌, ◌%◌, ◌≡◌, refl, sym, ap, ◌∙◌, bit_or, List, [], ◌∷◌, ◌++◌, append-nil,
  append_assoc, u16, length, if◌then◌else◌, arith,
}
use pico_lan.Serialiser.Sender.{
  Sender, is_special, put, put_all, gen_header, finish, finish_checksum, finish_frame, start,
}

-- Byte stuffing: 0xAA goes before each of the three bytes that have a meaning of their own.
unfoldable pub stuff : List ℕ → List ℕ
stuff [] = []
stuff (b ∷ bs) = let rest = stuff bs in if is_special b then 0xAA ∷ b ∷ rest else b ∷ rest

-- Fletcher's two running sums.
unfoldable pub fletcher : ℕ → ℕ → List ℕ → ℕ × ℕ
fletcher s1 s2 [] = (s1, s2)
fletcher s1 s2 (b ∷ bs) = let t = (s1 + b) % 255 in fletcher t ((s2 + t) % 255) bs

unfoldable pub checksum : List ℕ → ℕ
unfolding fletcher
checksum bs = let (s1, s2) = fletcher 0 0 bs in u16 (bit_or (s2 * 256) s1)

-- The checksum's two bytes, low byte first.
abbrev pub checksum_bytes : List ℕ → List ℕ
checksum_bytes bs = (checksum bs % 256) ∷ (checksum bs / 256 % 256) ∷ []

-- The frame that carries the bytes `bs`: identifier, size and fields.
abbrev pub frame : List ℕ → List ℕ
frame bs = 0xAB ∷ stuff (bs ++ checksum_bytes bs) ++ (0xAC ∷ [])

pub stuff-append : (xs ys : List ℕ) → stuff (xs ++ ys) ≡ stuff xs ++ stuff ys
unfolding stuff
stuff-append [] ys = refl
stuff-append (x ∷ xs) ys = ground (arith, stuff-append xs ys)

-- One byte on the wire.
put_lem :
    (s : Sender) (b : ℕ)
    → put s b ≡ record s {
      sum1 = (s.sum1 + b) % 255;
      sum2 = (s.sum2 + (s.sum1 + b) % 255) % 255;
      sent = s.sent ++ stuff (b ∷ []);
    }
unfolding put stuff
put_lem s b = ground (arith, append_assoc s.sent (0xAA ∷ []) (b ∷ []))

-- Writing bytes one by one puts their stuffing on the wire and runs the checksum over them.
put_all_lem :
    (s : Sender) (bs : List ℕ)
    → put_all s bs ≡ record s {
      sum1 = (fletcher s.sum1 s.sum2 bs).0;
      sum2 = (fletcher s.sum1 s.sum2 bs).1;
      sent = s.sent ++ stuff bs;
    }
unfolding put_all fletcher
put_all_lem s [] = unfold stuff in ground (arith, append-nil s.sent)
put_all_lem s (b ∷ bs) =
    ap (λ t. put_all t bs) (put_lem s b)
    ∙ put_all_lem next bs
    ∙ ap
        (λ xs. record next {
          sum1 = (fletcher next.sum1 next.sum2 bs).0;
          sum2 = (fletcher next.sum1 next.sum2 bs).1;
          sent = xs;
        })
        (append_assoc s.sent (stuff (b ∷ [])) (stuff bs)
          ∙ ap (λ xs. s.sent ++ xs) (sym (stuff-append (b ∷ []) bs)))
  where
    next : Sender
    next = record s {
      sum1 = (s.sum1 + b) % 255;
      sum2 = (s.sum2 + (s.sum1 + b) % 255) % 255;
      sent = s.sent ++ stuff (b ∷ []);
    }

pub put_all-append :
    (s : Sender) (xs ys : List ℕ) → put_all s (xs ++ ys) ≡ put_all (put_all s xs) ys
unfolding put_all
put_all-append s [] ys = refl
put_all-append s (x ∷ xs) ys = put_all-append (put s x) xs ys

-- The common shape of every `send()`: header, the bytes of the fields, checksum.
unfoldable pub send_body : ℕ → ℕ → List ℕ → Sender → Sender
send_body id size body s = finish (put_all (gen_header id size s) body)

-- What one packet adds to a sender: its frame on the wire, all of it flushed.
pub record Sends (s t : Sender) (bs : List ℕ) : Type 0 where
  pub on_wire : t.sent ≡ s.sent ++ frame bs
  pub all_flushed : t.flushed ≡ length t.sent

send_body_start :
    (id size : ℕ) (body : List ℕ) (s : Sender)
    → put_all (gen_header id size s) body ≡ put_all (start s) (id ∷ size ∷ body)
unfolding gen_header put_all
send_body_start id size body s = refl

finish_lem :
    (s : Sender)
    → finish s
      ≡ finish_frame (put_all s ((finish_checksum s % 256) ∷ (finish_checksum s / 256 % 256) ∷ []))
unfolding finish put_all
finish_lem s = refl

finish-sent :
    (s : Sender) (bs cs : List ℕ)
    → (finish_frame (put_all (put_all (start s) bs) cs)).sent
      ≡ s.sent ++ (0xAB ∷ stuff (bs ++ cs) ++ (0xAC ∷ []))
unfolding start finish_frame
finish-sent s bs cs =
    ap (λ t. (finish_frame t).sent)
      (sym (put_all-append (start s) bs cs) ∙ put_all_lem (start s) (bs ++ cs))
    ∙ append_assoc (s.sent ++ (0xAB ∷ [])) (stuff (bs ++ cs)) (0xAC ∷ [])
    ∙ append_assoc s.sent (0xAB ∷ []) (stuff (bs ++ cs) ++ (0xAC ∷ []))

finish_checksum-put_all :
    (s : Sender) (bs : List ℕ) → finish_checksum (put_all (start s) bs) ≡ checksum bs
unfolding finish_checksum start checksum
finish_checksum-put_all s bs = ap finish_checksum (put_all_lem (start s) bs)

finish_frame-flushed : (s : Sender) → (finish_frame s).flushed ≡ length (finish_frame s).sent
unfolding finish_frame
finish_frame-flushed s = refl

-- The sender puts the frame of the header and the body on the wire.
pub send_body-Sends :
    (id size : ℕ) (body : List ℕ) (s : Sender)
    → Sends s (send_body id size body s) (id ∷ size ∷ body)
unfolding send_body
send_body-Sends id size body s =
    rw (send_body_start id size body s, finish_lem, finish_checksum-put_all)
      (record {
        on_wire = finish-sent s (id ∷ size ∷ body) (checksum_bytes (id ∷ size ∷ body));
        all_flushed = finish_frame-flushed _;
      })
