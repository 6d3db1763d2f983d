-- ===== src/Etk/Sample.antt =====
-- One implementation of the etk classes, on which the tests and examples run. It shows that what
-- the records of Etk.antt ask for can be met.
mod Lists
mod Bytes
mod Rings
use pico_lan.Prelude.{ℕ}
use pico_lan.Etk.{Etk}
use pico_lan.Etk.Items.{IgnoresFull}
use Lists.{list_of, list_of-IgnoresFull}
use Bytes.{bits_of}
use Rings.{ring_of}

instance abbrev pub sample : Etk
sample = record {
  payload = list_of ℕ 54 0;
  sockets = list_of ℕ 16 0;
  bits = bits_of;
  ring = ring_of;
}

pub payload-IgnoresFull : IgnoresFull sample.payload
payload-IgnoresFull = list_of-IgnoresFull ℕ 54 0

pub sockets-IgnoresFull : IgnoresFull sample.sockets
sockets-IgnoresFull = list_of-IgnoresFull ℕ 16 0
