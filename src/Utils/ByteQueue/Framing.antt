-- ===== src/Utils/ByteQueue/Framing.antt =====
-- One packet in the byte queue: what a fetch yields, and when it waits.
use dcscan_modules_api.Prelude.{
  ℕ, ◌+◌, ◌^◌, ◌≤◌, ◌<◌, ◌≡◌, refl, List, ◌++◌, false, some, arith, length, take, drop,
  length-append, take_exact, drop_exact, append_assoc, ◌∙◌, ap,
}
use dcscan_modules_api.Prelude.Words.{le_bytes, le_value, length-le_bytes, le_value-le_bytes}
use dcscan_modules_api.Utils.ByteQueue.{
  ByteQueue, add_bytes, Header, Body, fetch_header, packet_size, fetch_body,
}

-- The wire form of a packet: its length as an `i32`, then its bytes.
abbrev pub frame : List ℕ → List ℕ
frame bytes = le_bytes 4 (length bytes) ++ bytes

pub length-frame : (bytes : List ℕ) → length (frame bytes) ≡ 4 + length bytes
length-frame bytes =
    omega (arith, length-append (le_bytes 4 (length bytes)) bytes, length-le_bytes 4 (length bytes))

pub packet_size_small : (n : ℕ) → n + 4 < 2 ^ 31 → packet_size n ≡ n + 4
unfolding packet_size
packet_size_small n h = ground arith

pub take-frame : (bytes rest : List ℕ) → take 4 (frame bytes ++ rest) ≡ le_bytes 4 (length bytes)
take-frame bytes rest =
    ap (take 4) (append_assoc (le_bytes 4 (length bytes)) bytes rest)
    ∙ take_exact 4 (le_bytes 4 (length bytes)) (bytes ++ rest) (length-le_bytes 4 (length bytes))

drop-frame : (bytes rest : List ℕ) → drop 4 (frame bytes ++ rest) ≡ bytes ++ rest
drop-frame bytes rest =
    ap (drop 4) (append_assoc (le_bytes 4 (length bytes)) bytes rest)
    ∙ drop_exact 4 (le_bytes 4 (length bytes)) (bytes ++ rest) (length-le_bytes 4 (length bytes))

pub fetch_header-frame :
    (bytes rest : List ℕ) (q : ByteQueue)
    → length bytes + 4 < 2 ^ 31
    → q.ntf_unblock ≡ false
    → q.buffer ≡ frame bytes ++ rest
    → fetch_header q ≡ Header.reading (length bytes)
unfolding fetch_header
fetch_header-frame bytes rest q h u e =
    rw (u, e, take-frame bytes rest, le_value-le_bytes 4 (length bytes) (omega arith))
      (ground (arith, length-append (frame bytes) rest, length-frame bytes))

pub fetch_body-frame :
    (bytes rest : List ℕ) (q : ByteQueue)
    → length bytes + 4 < 2 ^ 31
    → q.buffer ≡ frame bytes ++ rest
    → fetch_body (length bytes) q ≡ Body.message bytes (record q { buffer = rest })
unfolding fetch_body
fetch_body-frame bytes rest q h e =
    rw
      (
        packet_size_small (length bytes) h,
        e,
        drop-frame bytes rest,
        take_exact (length bytes) bytes rest refl,
        drop_exact (length bytes + 4) (frame bytes) rest (omega (arith, length-frame bytes)),
      )
      (ground (arith, length-append (frame bytes) rest, length-frame bytes))

pub buffer-add_bytes :
    (chunk : List ℕ) (q q' : ByteQueue)
    → add_bytes chunk q ≡ some q'
    → q'.buffer ≡ q.buffer ++ chunk
unfolding add_bytes
buffer-add_bytes chunk q q' h = ground arith

pub fetch_body_complete :
    (n : ℕ) (q q' : ByteQueue) (bytes : List ℕ)
    → n + 4 < 2 ^ 31
    → fetch_body n q ≡ Body.message bytes q'
    → n + 4 ≤ length q.buffer
unfolding fetch_body
fetch_body_complete n q q' bytes h e = ground (arith, packet_size_small n h)

pub fetch_header_complete :
    (n : ℕ) (q : ByteQueue)
    → fetch_header q ≡ Header.reading n
    → (4 ≤ length q.buffer) × (le_value (take 4 q.buffer) ≡ n)
unfolding fetch_header
fetch_header_complete n q e = ground arith
