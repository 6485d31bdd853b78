-- ===== src/Engine/Serial/Tests.antt =====
-- Replies on small inputs, and the theorem at inputs that meet its hypotheses.
use dcscan_modules_api.Prelude.{◌≡◌, refl, none, some, [], ◌∷◌, arith}
use dcscan_modules_api.Engine.Serial.{rx_loop, Received, finish, until_zero, read_bytes}
use dcscan_modules_api.Engine.Serial.Replies.{read_bytes-line}

-- "1TP" with its end, and a character behind it.
read_bytes-line_example :
    read_bytes 16 (some 49 ∷ some 84 ∷ some 80 ∷ some 13 ∷ some 10 ∷ some 7 ∷ [])
    ≡ some (Received.text (49 ∷ 84 ∷ 80 ∷ []))
read_bytes-line_example =
    read_bytes-line 16 (49 ∷ 84 ∷ 80 ∷ []) (some 7 ∷ [])
      (
        ((λ e. omega (arith, e)), (λ e. omega (arith, e))),
        (
          ((λ e. omega (arith, e)), (λ e. omega (arith, e))),
          (((λ e. omega (arith, e)), (λ e. omega (arith, e))), tt),
        ),
      )
      (omega arith)

-- A line feed alone is a write in front of the buffer.
alone : read_bytes 16 (some 10 ∷ []) ≡ some Received.fault
unfolding read_bytes rx_loop finish
alone = refl

-- A line feed without a carriage return takes the last character with it.
no_return : read_bytes 16 (some 49 ∷ some 84 ∷ some 10 ∷ []) ≡ some (Received.text (49 ∷ []))
unfolding read_bytes rx_loop finish until_zero
no_return = refl

-- A read without a character ends the reply.
without_character :
    read_bytes 16 (some 49 ∷ some 0 ∷ some 84 ∷ some 13 ∷ some 10 ∷ [])
    ≡ some (Received.text (49 ∷ []))
unfolding read_bytes rx_loop finish until_zero
without_character = refl

-- A failed read is a failed call, and without the end of a line the call waits.
failed_read : read_bytes 16 (some 49 ∷ none ∷ []) ≡ some Received.failed
unfolding read_bytes rx_loop finish
failed_read = refl

waits : read_bytes 16 (some 49 ∷ some 13 ∷ []) ≡ none
unfolding read_bytes rx_loop finish
waits = refl
