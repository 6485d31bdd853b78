-- ===== src/Engine/Serial.antt =====
-- Reading a reply from a serial port (DCS_EngineControl/src/serial_win.cpp). What the port delivers is a
-- parameter: the characters that `ReadFile` returns, `none` where it fails, and 0 where it returns without
-- one, which the code takes for a character; the handle is valid, and the mask and the wait for the first
-- character succeed.
pub mod Replies
mod Tests
use dcscan_modules_api.Prelude.{
  ℕ, zero, suc, ◌+◌, ◌-◌, ◌*◌, ◌/◌, ◌%◌, ◌^◌, ◌≤◌, ◌<◌, min, max, ◌≡◌, refl, sym, ap, ◌∙◌, ◌≢◌, ◌↔◌,
  ◌⊎◌, inl, inr, Bool, true, false, not, ◌&&◌, ◌||◌, Option, none, some, List, [], ◌∷◌, ◌++◌, map,
  append-nil, append_assoc, arith, ltb, leb, ◌==◌, if◌then◌else◌, ltb→lt, lt→ltb, leb→le, le→leb,
  ==_iff, ==_refl, Bool-cases, Option-cases, length, get_elem?, get_or, take, drop, set,
  length-append, length-take, length-drop, take-append-drop, take_exact, drop_exact, take_within,
  take_all, length-map, All,
}
use dcscan_modules_api.Prelude.Words.{le_bytes, le_value, length-le_bytes, le_value-le_bytes}

abbrev pub read_buffer_size : ℕ
read_buffer_size = 256

abbrev pub rx_eof : ℕ
rx_eof = 10

-- The variables of the loop: the characters in `localSerialBuffer`, of which there are `i`, and `last`,
-- `none` for -1. `status` is that of the last read.
pub record Rx : Type 0 where
  pub buffer : List ℕ
  pub last : Option ℕ
  pub excess : ℕ
  pub status : Bool

abbrev pub before : ℕ → Option ℕ
before zero = none
before (suc i) = some i

abbrev pub stored : ℕ → Rx → Rx
stored c s = record s { buffer = s.buffer ++ c ∷ []; last = before (length s.buffer) }

-- The loop; `none` waits for the port.
unfoldable pub rx_loop : List (Option ℕ) → Rx → Option Rx
rx_loop [] s = none
rx_loop (none ∷ reads) s = some (record s { status = false })
rx_loop (some c ∷ reads) s =
    let skipped : Rx = record s { excess = s.excess + 1 } in
    let skip = rx_loop reads skipped in
    let go = rx_loop reads (stored c s) in
    if length s.buffer == read_buffer_size
    then (if c == rx_eof then some skipped else skip)
    else if c == rx_eof
    then some (stored c s)
    else go

-- `fault` is a write in front of the buffer, or `strcpy_s` into a buffer that has no place for the zero.
pub data Received : Type 0 where
  failed : Received
  fault : Received
  text : List ℕ → Received

-- The characters before the first zero.
unfoldable pub until_zero : List ℕ → List ℕ
until_zero [] = []
until_zero (c ∷ cs) = let rest = until_zero cs in if c == 0 then [] else c ∷ rest

abbrev pub copied : ℕ → List ℕ → Received
copied buffer_size chars =
    if leb (length chars) buffer_size
    then (if ltb (length chars) buffer_size then Received.text chars else Received.fault)
    else Received.failed

abbrev pub terminated : ℕ → List ℕ → Option ℕ → Received
terminated buffer_size buffer none = Received.fault
terminated buffer_size buffer (some last) = copied buffer_size (until_zero (set buffer last 0))

-- What follows the loop, for a buffer of the caller of `buffer_size` characters.
unfoldable pub finish : ℕ → Rx → Received
finish buffer_size s =
    if (length s.buffer == read_buffer_size)
      && not (get_or s.buffer (read_buffer_size - 1) 0 == rx_eof)
    then Received.failed
    else if not s.status
    then Received.failed
    else terminated buffer_size s.buffer s.last

abbrev pub finished : ℕ → Option Rx → Option Received
finished buffer_size none = none
finished buffer_size (some s) = some (finish buffer_size s)

unfoldable pub read_bytes : ℕ → List (Option ℕ) → Option Received
read_bytes buffer_size reads =
    finished buffer_size
      (rx_loop reads (record { buffer = []; last = some 0; excess = 0; status = true }))
