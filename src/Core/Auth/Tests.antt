-- ===== src/Core/Auth/Tests.antt =====
-- Runs of the cipher on small inputs, and the theorems at inputs that meet their hypotheses.
use dcscan_modules_api.Prelude.{◌≡◌, refl, ◌⊎◌, Bool, true, false, none, some, List, [], ◌∷◌}
use dcscan_modules_api.Prelude.Attempts.{NoneFails}
use dcscan_modules_api.Core.Auth.{
  Draw, init_crypto_rand, generate, generate_salt, generate_rand_safe_iv128, Call, Evp, sha256_str,
  tag_steps, decrypt_steps, encrypt_aes256, decrypt_aes256, attempt, aad_steps, hex_digit,
  hex_stringify_bytes,
}
use dcscan_modules_api.Prelude.{length, arith, All}
use dcscan_modules_api.Core.Auth.Hex.{IsHexDigit, read_hex, read_hex-hex_stringify}
use dcscan_modules_api.Core.Auth.Contexts.{encrypt_plan, decrypt_plan, IsFreed, context-IsFreed}

-- The final call fails.
abbrev final_fails : List Call → Call → Bool
final_fails made Call.final = true
final_fails made _ = false

abbrev evp : Evp
evp = record { fails = final_fails; text = λ made. 7 ∷ 8 ∷ []; tag = λ made. 9 ∷ [] }

refused : (decrypt_aes256 evp (1 ∷ 2 ∷ []) none [] [] none).0 ≡ (none, 7 ∷ 8 ∷ [])
unfolding decrypt_aes256 attempt decrypt_steps aad_steps tag_steps
refused = refl

context-IsFreed_example :
    let encrypted = encrypt_aes256 evp (1 ∷ 2 ∷ []) none (3 ∷ []) (4 ∷ []) in
    let decrypted = decrypt_aes256 evp (1 ∷ 2 ∷ []) none (3 ∷ []) (4 ∷ []) (some (5 ∷ [])) in
    let calls = encrypt_plan (1 ∷ 2 ∷ []) none (3 ∷ []) (4 ∷ []) in
    let calls' = decrypt_plan (1 ∷ 2 ∷ []) none (3 ∷ []) (4 ∷ []) (some (5 ∷ [])) in
    IsFreed evp calls encrypted.1
    × ((encrypted.0.1 ≡ none) ⊎ NoneFails evp.fails (Call.ctx_new ∷ []) calls)
    × IsFreed evp calls' decrypted.1
    × ((decrypted.0.0 ≡ none) ⊎ NoneFails evp.fails (Call.ctx_new ∷ []) calls')
context-IsFreed_example = context-IsFreed evp (1 ∷ 2 ∷ []) none (3 ∷ []) (4 ∷ []) (some (5 ∷ []))

read_hex-hex_stringify_example :
    (read_hex (hex_stringify_bytes (222 ∷ 9 ∷ [])) ≡ 222 ∷ 9 ∷ [])
    × (length (hex_stringify_bytes (222 ∷ 9 ∷ [])) ≡ 4)
    × All IsHexDigit (hex_stringify_bytes (222 ∷ 9 ∷ []))
read_hex-hex_stringify_example =
    read_hex-hex_stringify (222 ∷ 9 ∷ []) (omega arith, (omega arith, tt))

de_09 : hex_stringify_bytes (222 ∷ 9 ∷ []) ≡ 100 ∷ 101 ∷ 48 ∷ 57 ∷ []
unfolding hex_stringify_bytes hex_digit
de_09 = refl

-- The generator is polled once, before the first bytes.
polled_once :
    (generate_salt (
      init_crypto_rand (
        generate_rand_safe_iv128
          (init_crypto_rand (generate_salt (record { c_rand_init = false; drawn = [] })))))).drawn
    ≡ Draw.poll ∷ Draw.draw_bytes 16 ∷ Draw.draw_bytes 8 ∷ []
unfolding generate init_crypto_rand
polled_once = refl

hashed : sha256_str [] ≡ []
unfolding sha256_str
hashed = refl
