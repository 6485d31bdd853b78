-- ===== src/Utils/ByteQueue.antt =====
-- `DCS::Utils::ByteQueue` (DCS_Utils/include/internal.h): the byte stream of a connection and the
-- packets cut out of it. The occupied prefix of the buffer is a list, and `internal_buff_size` is its
-- length. A call that would wait on the condition variable returns `blocked`.
pub mod Framing
pub mod Stream
pub mod Delivery
use dcscan_modules_api.Prelude.{
  ℕ, ◌+◌, ◌-◌, ◌%◌, ◌^◌, List, [], ◌++◌, Bool, true, false, Option, none, some, length, take, drop,
  leb, ltb, if◌then◌else◌,
}
use dcscan_modules_api.Prelude.Words.{le_value}

pub record ByteQueue : Type 0 where
  pub buffer : List ℕ
  pub max_size : ℕ
  pub ntf_unblock : Bool

unfoldable pub create : ℕ → ByteQueue
create buffer_size = record { buffer = []; max_size = buffer_size; ntf_unblock = false }

unfoldable pub count : ByteQueue → ℕ
count q = length q.buffer

-- `none` waits for room. The sum in the wait predicate is a `u64`.
unfoldable pub add_bytes : List ℕ → ByteQueue → Option ByteQueue
add_bytes bytes q =
    if leb ((length q.buffer + length bytes) % 2 ^ 64) q.max_size
    then some (record q { buffer = q.buffer ++ bytes })
    else none

-- The first wait of `fetchNextMsg`, and the read of the length prefix that ends it.
pub data Header : Type 0 where
  blocked : Header
  unblocked : Header
  reading : ℕ → Header

unfoldable pub fetch_header : ByteQueue → Header
fetch_header q =
    if q.ntf_unblock
    then Header.unblocked
    else if leb 4 (length q.buffer)
    then Header.reading (le_value (take 4 q.buffer))
    else Header.blocked

-- `const i32 packet_size = to_read + sizeof(i32)`, as the comparison with a `u64` reads it: a
-- negative value is sign extended.
unfoldable pub packet_size : ℕ → ℕ
packet_size to_read =
    let size = (to_read + 4) % 2 ^ 32 in
    if ltb size (2 ^ 31) then size else size + (2 ^ 64 - 2 ^ 32)

-- `fault` is a copy whose length is a negative `i32`.
pub data Body : Type 0 where
  blocked : Body
  fault : Body
  message : List ℕ → ByteQueue → Body

-- The second wait, which does not look at `ntf_unblock`, and the copies that follow it.
unfoldable pub fetch_body : ℕ → ByteQueue → Body
unfolding packet_size
fetch_body to_read q =
    if leb (packet_size to_read) (length q.buffer)
    then (if ltb to_read (2 ^ 31)
        then Body.message (take to_read (drop 4 q.buffer))
            (record q { buffer = drop (packet_size to_read) q.buffer })
        else Body.fault)
    else Body.blocked

pub data Fetched : Type 0 where
  blocked : Fetched
  -- the return value 0
  nothing : Fetched
  fault : Fetched
  message : List ℕ → ByteQueue → Fetched

abbrev of_body : Body → Fetched
of_body Body.blocked = Fetched.blocked
of_body Body.fault = Fetched.fault
of_body (Body.message bytes q) = Fetched.message bytes q

abbrev after_header : Header → ByteQueue → Fetched
after_header Header.blocked q = Fetched.blocked
after_header Header.unblocked q = Fetched.nothing
after_header (Header.reading to_read) q = of_body (fetch_body to_read q)

-- `fetchNextMsg` where nothing happens between its two waits.
unfoldable pub fetch_next_msg : ByteQueue → Fetched
fetch_next_msg q = after_header (fetch_header q) q

unfoldable pub notify_unblock : ByteQueue → ByteQueue
notify_unblock q = record q { ntf_unblock = true }

unfoldable pub notify_restart : ByteQueue → ByteQueue
notify_restart q = record q { buffer = []; ntf_unblock = false }
