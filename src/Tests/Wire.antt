-- ===== src/Tests/Wire.antt =====
-- A datagram between machines that put the lowest byte of a word first.
use network_programming.Base.{ℕ, ◌+◌, ◌*◌, ◌/◌, ◌%◌, ◌^◌, ◌<◌, [], ◌∷◌, Bytes, ◌≡◌, refl, arith}
use network_programming.Transfer.Wire.{QueryObj, Words, send_udp_data, recv_udp_data, recv-send}

abbrev word_of : Bytes → ℕ
word_of (a ∷ (b ∷ (c ∷ (d ∷ [])))) = a + 256 * b + 65536 * c + 16777216 * d
word_of _ = 0

abbrev bytes_of : ℕ → Bytes
bytes_of n = n % 256 ∷ (n / 256 % 256 ∷ (n / 65536 % 256 ∷ (n / 16777216 % 256 ∷ [])))

word_of-bytes_of : (n : ℕ) → n < 2 ^ 32 → word_of (bytes_of n) ≡ n
word_of-bytes_of n l = omega arith

abbrev little_endian : Words
little_endian = record {
  put = bytes_of;
  get = word_of;
  length-put = λ n. refl;
  get-put = word_of-bytes_of;
}

abbrev sent : QueryObj
sent = record {
  config = record { seq = 4294967295; ts = 77; rwnd = 0; kind = 1 };
  buf = 104 ∷ (105 ∷ (0 ∷ []));
}

abbrev held : QueryObj
held = record { config = record { seq = 9; ts = 9; rwnd = 9; kind = 3 }; buf = 7 ∷ (7 ∷ (7 ∷ [])) }

recv-send_example :
    recv_udp_data 3 little_endian (send_udp_data 3 little_endian sent) held ≡ (sent, 19)
recv-send_example =
    recv-send 3 little_endian sent held refl refl
      (record { seq = omega arith; ts = omega arith; rwnd = omega arith; kind = omega arith })
