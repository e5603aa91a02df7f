-- ===== src/Transfer/Wire.antt =====
-- A datagram of the file transfer on the wire: send_udp_data and recv_udp_data of hw2/common.c. The
-- two buffers that init_query_obj sets up are the text first, then the header.
use native.Mathlib.Nat.{zero-add, suc-add}
use mathlib.Core.List.{append-nil}
use network_programming.Base.{
  ℕ, zero, suc, ◌+◌, ◌^◌, ◌≤◌, ◌<◌, min, [], ◌∷◌, ◌++◌, length, take, drop, Bytes, ◌≡◌, refl, ◌∙◌,
  ap, sym, subst, arith, length-append, take-append,
}

-- sizeof(struct udp_data): four words with no gap.
abbrev pub header_size : ℕ
header_size = 16

-- `struct udp_data`, with the number of the type.
pub record UdpData : Type 0 where
  pub seq : ℕ
  pub ts : ℕ
  pub rwnd : ℕ
  pub kind : ℕ

-- `struct query_obj`, less what the calls set up anew.
pub record QueryObj : Type 0 where
  pub config : UdpData
  pub buf : Bytes

-- How the machine lays out a word of 32 bits.
pub record Words : Type 0 where
  pub put : ℕ → Bytes
  pub get : Bytes → ℕ
  pub length-put : (n : ℕ) → length (put n) ≡ 4
  pub get-put : (n : ℕ) → n < 2 ^ 32 → get (put n) ≡ n

take_whole : (xs : Bytes) (n : ℕ) → length xs ≡ n → take n xs ≡ xs
take_whole [] zero e = refl
take_whole [] (suc n) e = refl
take_whole (x ∷ xs) zero e = absurd (omega arith)
take_whole (x ∷ xs) (suc n) e = ap (λ (l : Bytes). x ∷ l) (take_whole xs n (omega arith))

drop-append : (xs ys : Bytes) (n : ℕ) {m : ℕ} → length xs ≡ m → drop (m + n) (xs ++ ys) ≡ drop n ys
drop-append xs ys n e = subst (λ (m : ℕ). drop (m + n) (xs ++ ys) ≡ drop n ys) e (drop_past xs ys n)
  where
    drop_past : (xs ys : Bytes) (n : ℕ) → drop (length xs + n) (xs ++ ys) ≡ drop n ys
    drop_past [] ys n = rw zero-add
    drop_past (x ∷ xs) ys n = rw suc-add (drop_past xs ys n)

drop_whole : (xs : Bytes) (n : ℕ) → length xs ≤ n → drop n xs ≡ []
drop_whole [] zero e = refl
drop_whole [] (suc n) e = refl
drop_whole (x ∷ xs) zero e = absurd (omega arith)
drop_whole (x ∷ xs) (suc n) e = drop_whole xs n (omega arith)

-- `maxline` is MAXLINE of unp.h.
module _ (maxline : ℕ) (words : Words) where
  open words use {put, get, length-put, get-put}

  unfoldable pub header_bytes : UdpData → Bytes
  header_bytes c = put c.seq ++ (put c.ts ++ (put c.rwnd ++ put c.kind))

  unfoldable pub header_of : Bytes → UdpData
  header_of bs = record {
    seq = get (take 4 bs);
    ts = get (take 4 (drop 4 bs));
    rwnd = get (take 4 (drop 8 bs));
    kind = get (take 4 (drop 12 bs));
  }

  -- `sendmsg` gathers the two buffers.
  unfoldable pub send_udp_data : QueryObj → Bytes
  send_udp_data obj = obj.buf ++ header_bytes obj.config

  -- `recvmsg` scatters what arrives into the text and then the header; what does not arrive leaves
  -- them as they were, and what is too much is cut off. The result is the count too.
  unfoldable pub recv_udp_data : Bytes → QueryObj → QueryObj × ℕ
  recv_udp_data bs obj =
      let arrived = take header_size (drop maxline bs) in
      (
        record {
          buf = take maxline bs ++ drop (length bs) obj.buf;
          config = header_of (arrived ++ drop (length arrived) (header_bytes obj.config));
        },
        min (length bs) (maxline + header_size),
      )

  -- The words of a header are `uint32_t`.
  pub record IsHeader (c : UdpData) : Type 0 where
    pub seq : c.seq < 2 ^ 32
    pub ts : c.ts < 2 ^ 32
    pub rwnd : c.rwnd < 2 ^ 32
    pub kind : c.kind < 2 ^ 32

  header_of-header_bytes : (c : UdpData) → IsHeader c → header_of (header_bytes c) ≡ c
  unfolding header_of header_bytes
  header_of-header_bytes c v =
      let l = λ (n : ℕ). sym (length-put n) in
      let after_seq = put c.ts ++ (put c.rwnd ++ put c.kind) in
      let after_ts = put c.rwnd ++ put c.kind in
      let second = drop-append (put c.seq) after_seq 0 (length-put c.seq) in
      let third =
        drop-append (put c.seq) after_seq 4 (length-put c.seq)
        ∙ drop-append (put c.ts) after_ts 0 (length-put c.ts) in
      let fourth =
        drop-append (put c.seq) after_seq 8 (length-put c.seq)
        ∙ (drop-append (put c.ts) after_ts 4 (length-put c.ts)
            ∙ drop-append (put c.rwnd) (put c.kind) 0 (length-put c.rwnd)) in
      let first = take-append (put c.seq) after_seq 4 (l c.seq) in
      rw
        (
          first,
          second,
          third,
          fourth,
          take-append (put c.ts) after_ts 4 (l c.ts),
          take-append (put c.rwnd) (put c.kind) 4 (l c.rwnd),
          take_whole (put c.kind) 4 (length-put c.kind),
          get-put c.seq v.seq,
          get-put c.ts v.ts,
          get-put c.rwnd v.rwnd,
          get-put c.kind v.kind,
        )
        refl

  length-header_bytes : (c : UdpData) → length (header_bytes c) ≡ header_size
  unfolding header_bytes
  length-header_bytes c = ground (
    arith,
    length-append (put c.seq) (put c.ts ++ (put c.rwnd ++ put c.kind)),
    length-append (put c.ts) (put c.rwnd ++ put c.kind),
    length-append (put c.rwnd) (put c.kind),
    length-put c.seq,
    length-put c.ts,
    length-put c.rwnd,
    length-put c.kind,
  )

  -- A datagram that is sent is received as it was, whatever the receiver held before: the text, every
  -- word of the header, and the count of all its bytes. The texts at either end are arrays of MAXLINE
  -- bytes, the words of the header are below 2^32, and the machines at both ends lay out a word alike.
  pub recv-send :
      (obj old : QueryObj)
      → length obj.buf ≡ maxline
      → length old.buf ≡ maxline
      → IsHeader obj.config
      → recv_udp_data (send_udp_data obj) old ≡ (obj, maxline + header_size)
  unfolding recv_udp_data send_udp_data
  recv-send obj old l m v =
      let bs = header_bytes obj.config in
      let size = length-header_bytes obj.config in
      let all : length (obj.buf ++ bs) ≡ maxline + header_size =
        omega (arith, length-append obj.buf bs, l, size) in
      let same_min : min (maxline + header_size) (maxline + header_size) ≡ maxline + header_size =
        omega arith in
      let from_zero : maxline + 0 ≡ maxline = omega arith in
      let header : drop maxline (obj.buf ++ bs) ≡ bs =
        rw from_zero at (drop-append obj.buf bs 0 l) in
      rw
        (
          all,
          header,
          take-append obj.buf bs maxline (sym l),
          drop_whole old.buf (maxline + header_size) (omega (arith, m)),
        )
        (rw
          (
            take_whole bs header_size size,
            drop_whole (header_bytes old.config) (length bs)
                (omega (arith, size, length-header_bytes old.config)),
            append-nil bs,
            append-nil obj.buf,
            header_of-header_bytes obj.config v,
            same_min,
          )
          refl)
