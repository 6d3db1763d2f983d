-- ===== src/Serialiser/Tests.antt =====
-- Packets written and parsed by evaluation, and the theorems at concrete packets.
use pico_lan.Prelude.{
  ℕ, zero, suc, ◌≡◌, ◌≢◌, ◌/◌, ◌%◌, refl, false, Option, none, some, List, [], ◌∷◌, ◌++◌, fill,
  arith,
}
use pico_lan.Etk.Sample.{sample}
use pico_lan.Etk.Items.{append_all}
use pico_lan.Serialiser.Sender.{Sender}
use pico_lan.Serialiser.Framing.{stuff, frame, checksum, checksum_bytes, Sends}
use pico_lan.Serialiser.Wire.{content, send-Sends}
use pico_lan.Serialiser.Parser.{Parser, read_all, read, new, start, check_2}
use pico_lan.Serialiser.Parser.Steps.{idle}
use pico_lan.Serialiser.Parser.Safety.{IsPlaced, Trusted, read-IsPlaced}
use pico_lan.Serialiser.Parser.LongList.{read_all-long_list}
use pico_lan.Serialiser.Parser.Overrun.{read_all-overrun}
use pico_lan.Serialiser.Parser.Reject.{read_all-wrong_checksum}
use pico_lan.Serialiser.Corruption.{frame_with, read_all-changed_byte, read_all-swapped_bytes}
use pico_lan.Serialiser.Pack.{Packet, send}
use pico_lan.Serialiser.Pack.Ping.{PingPack}
use pico_lan.Serialiser.Pack.Datagram.{DatagramPack}
use pico_lan.Serialiser.RoundTrip.{AllSame, send_all, read_all-send_all}

abbrev silent : Sender
silent = record { sum1 = 7; sum2 = 9; sent = []; flushed = 0 }

abbrev hello : PingPack
hello = record { ttl = 6; source_addr = 0xAA; dest_addr = 3; payload = 0xABCD }

abbrev letter : DatagramPack
letter = record {
  ttl = 6;
  source_addr = 1;
  dest_addr = 0xFF;
  port = 80;
  payload = append_all sample.payload [] (0xAB ∷ 0xAC ∷ 7 ∷ []);
}

abbrev wire : List ℕ
wire = 0xAB ∷ 3 ∷ 5 ∷ 6 ∷ 0xAA ∷ 0xAA ∷ 3 ∷ 0xCD ∷ 0xAA ∷ 0xAB ∷ 0x35 ∷ 0x4C ∷ 0xAC ∷ []

expected_output : (send (Packet.ping hello) silent).sent ≡ wire
unfolding send
expected_output = refl

abbrev mail : List Packet
mail = Packet.ping hello ∷ Packet.datagram letter ∷ []

abbrev untouched : Parser
untouched = new (λ i. 0)

read_all-send_all_example :
    (r' : Parser) × (qs : List Packet) × (read_all untouched (send_all silent mail).sent
      ≡ some (r', qs))
    × AllSame mail qs
    × (r'.stuff_flag ≡ false)
read_all-send_all_example =
    read_all-send_all silent untouched mail refl refl (omega arith, (tt, tt))

send-Sends_example :
    Sends silent (send (Packet.datagram letter) silent) (content (Packet.datagram letter))
send-Sends_example = send-Sends (Packet.datagram letter) silent

-- A parser that has read the frame of a ping up to the last byte of its checksum.
abbrev at_end : Parser
at_end = record untouched {
  state = check_2;
  msg_id = 3;
  checksum_in = 0x35;
  data_length = 5;
  data_pos = 7;
  data_buf = fill (λ i. 0) 0 (3 ∷ 5 ∷ 6 ∷ 0xAA ∷ 3 ∷ 0xCD ∷ 0xAB ∷ []);
}

at_end-Trusted : Trusted at_end 0x4C
at_end-Trusted = record { size_fits = λ e. cc; payload_fits = λ e content z. omega arith }

read-IsPlaced_example :
    (p' : Parser) × (m : Option Packet) × (read at_end 0x4C ≡ some (p', m)) × IsPlaced p'
read-IsPlaced_example = read-IsPlaced at_end 0x4C (omega arith) at_end-Trusted

-- The last byte of that frame hands over the ping.
at_end-read :
    read at_end 0x4C
    ≡ some (record at_end { state = start; checksum_in = 0x4C35 }, some (Packet.ping hello))
unfolding read fill
at_end-read = refl

-- 63 bytes 1.
abbrev ones : ℕ → List ℕ
ones zero = []
ones (suc n) = 1 ∷ ones n

read_all-overrun_example :
    read_all untouched (0xAB ∷ stuff (5 ∷ 200 ∷ 1 ∷ ones 62) ++ (9 ∷ [])) ≡ none
read_all-overrun_example =
    read_all-overrun untouched 5 200 1 (ones 62) (9 ∷ []) refl (omega arith) (omega arith) refl

-- A ping whose third byte, 3, arrives as 4.
read_all-changed_byte_example :
    let bytes : List ℕ = 3 ∷ 5 ∷ 6 ∷ 0xAA ∷ 3 ∷ 0xCD ∷ 0xAB ∷ [] in
    let before = 0xAB ∷ stuff (3 ∷ 5 ∷ 6 ∷ 0xAA ∷ []) in
    let behind = stuff ((0xCD ∷ 0xAB ∷ []) ++ checksum_bytes bytes) ++ (0xAC ∷ []) in
    (frame bytes ≡ before ++ (3 ∷ behind))
    × (read_all untouched ((before ++ (4 ∷ behind)) ++ (7 ∷ []))
        ≡ read_all
            (idle 3
              (checksum bytes)
              5
              (fill untouched.data_buf 0 (3 ∷ 5 ∷ 6 ∷ 0xAA ∷ 4 ∷ 0xCD ∷ 0xAB ∷ [])))
            (7 ∷ []))
read_all-changed_byte_example =
    read_all-changed_byte untouched 3 3 4 (6 ∷ 0xAA ∷ []) (0xCD ∷ 0xAB ∷ []) (7 ∷ []) refl
      (omega arith) (omega arith) (omega arith) refl refl

-- Its last two bytes in the wrong order.
read_all-swapped_bytes_example :
    let sent = checksum (3 ∷ 5 ∷ 6 ∷ 0xAA ∷ 3 ∷ 0xCD ∷ 0xAB ∷ []) in
    let got : List ℕ = 6 ∷ 0xAA ∷ 3 ∷ 0xAB ∷ 0xCD ∷ [] in
    read_all untouched (frame_with 3 got (sent % 256) (sent / 256 % 256) ++ (7 ∷ []))
    ≡ read_all (idle 3 sent 5 (fill untouched.data_buf 0 (3 ∷ 5 ∷ got))) (7 ∷ [])
read_all-swapped_bytes_example =
    read_all-swapped_bytes untouched 3 0xCD 0xAB (6 ∷ 0xAA ∷ 3 ∷ []) [] (7 ∷ []) refl (omega arith)
      (omega arith) (omega arith)

sum_not_zero : 0 ≢ checksum (0 ∷ 1 ∷ 7 ∷ [])
unfolding checksum
sum_not_zero e = omega arith

read_all-wrong_checksum_example :
    read_all untouched ((0xAB ∷ stuff (0 ∷ 1 ∷ 7 ∷ 0 ∷ 0 ∷ []) ++ (0xAC ∷ [])) ++ (1 ∷ []))
    ≡ read_all (idle 0 0 1 (fill untouched.data_buf 0 (0 ∷ 1 ∷ 7 ∷ []))) (1 ∷ [])
read_all-wrong_checksum_example =
    read_all-wrong_checksum untouched 0 7 0 0 [] (1 ∷ []) refl (omega arith) (omega arith)
      (omega arith) (omega arith) sum_not_zero

-- A datagram whose length byte says 200 where one byte follows.
read_all-long_list_example :
    read_all untouched (frame (5 ∷ 6 ∷ 6 ∷ 1 ∷ 2 ∷ 80 ∷ 200 ∷ 7 ∷ []) ++ (9 ∷ [])) ≡ none
read_all-long_list_example =
    read_all-long_list untouched 6 1 2 80 200 (7 ∷ []) (9 ∷ []) refl (omega arith) (omega arith)
