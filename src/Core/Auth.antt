-- ===== src/Core/Auth.antt =====
-- DCS_Core/src/auth.cpp: the random numbers, the hash, the two uses of AES-256 in GCM mode, and bytes in
-- hexadecimal digits. OpenSSL is a parameter: which of its calls fail, and what the cipher writes;
-- logging is left out, and pointers are not null unless an option says so.
pub mod Contexts
pub mod Hex
mod Tests
use dcscan_modules_api.Prelude.{
  ℕ, zero, suc, ◌+◌, ◌-◌, ◌*◌, ◌/◌, ◌%◌, ◌^◌, ◌≤◌, ◌<◌, min, max, ◌≡◌, refl, sym, ap, ◌∙◌, ◌≢◌, ◌↔◌,
  ◌⊎◌, inl, inr, Bool, true, false, not, ◌&&◌, ◌||◌, Option, none, some, List, [], ◌∷◌, ◌++◌, map,
  append-nil, append_assoc, arith, ltb, leb, ◌==◌, if◌then◌else◌, ltb→lt, lt→ltb, leb→le, le→leb,
  ==_iff, ==_refl, Bool-cases, Option-cases, length, get_elem?, get_or, take, drop, set,
  length-append, length-take, length-drop, take-append-drop, take_exact, drop_exact, take_within,
  take_all, length-map, All,
}
use dcscan_modules_api.Prelude.Words.{le_bytes, le_value, length-le_bytes, le_value-le_bytes}

-- `cRandInit`, and what was asked of the generator: `RAND_poll`, or a number of random bytes.
pub data Draw : Type 0 where
  poll : Draw
  draw_bytes : ℕ → Draw

pub record Random : Type 0 where
  pub c_rand_init : Bool
  pub drawn : List Draw

unfoldable pub init_crypto_rand : Random → Random
init_crypto_rand r = record {
  c_rand_init = true;
  drawn = if not r.c_rand_init then r.drawn ++ Draw.poll ∷ [] else r.drawn;
}

-- `GenerateSalt` and `GenerateRandSafeIV128`, for a pointer that is not null.
unfoldable pub generate : ℕ → Random → Random
generate n r = if r.c_rand_init then record r { drawn = r.drawn ++ Draw.draw_bytes n ∷ [] } else r

abbrev pub generate_salt : Random → Random
generate_salt = generate 8

abbrev pub generate_rand_safe_iv128 : Random → Random
generate_rand_safe_iv128 = generate 16

-- The calls of OpenSSL on a context.
pub data Call : Type 0 where
  ctx_new init_type ctx_free digest_init digest_final : Call
  set_ivlen get_tag : ℕ → Call
  init_key : List ℕ → List ℕ → Call
  update_aad update_text set_tag digest_update : List ℕ → Call
  final : Call

-- `fails` answers for a call after the ones before it; `text` is what the updates and the final call
-- after these calls have written, and `tag` the tag that can be read then.
pub record Evp : Type 0 where
  pub fails : List Call → Call → Bool
  pub text : List Call → List ℕ
  pub tag : List Call → List ℕ

-- `SHA256Str`: the calls for a text that is not empty, whose results are not looked at.
unfoldable pub sha256_str : List ℕ → List Call
sha256_str string =
    if length string == 0
    then []
    else Call.ctx_new
      ∷ Call.digest_init
      ∷ Call.digest_update string
      ∷ Call.digest_final
      ∷ Call.ctx_free
      ∷ []

-- A call whose result is tested, with the calls of the branch that returns if it fails.
abbrev pub Step : Type 0
Step = Call × List Call

-- The call for the additional data, which may be a null pointer.
unfoldable pub aad_steps : Option (List ℕ) → List Step
aad_steps none = []
aad_steps (some aad) =
    if ltb 0 (length aad) then (Call.update_aad aad, Call.ctx_free ∷ []) ∷ [] else []

unfoldable pub encrypt_steps : List ℕ → Option (List ℕ) → List ℕ → List ℕ → List Step
encrypt_steps to_encrypt aad key iv =
    (Call.ctx_new, [])
    ∷ (Call.init_type, Call.ctx_free ∷ [])
    ∷ (Call.set_ivlen 16, Call.ctx_free ∷ [])
    ∷ (Call.init_key key iv, Call.ctx_free ∷ [])
    ∷ (aad_steps aad
        ++ (Call.update_text to_encrypt, Call.ctx_free ∷ [])
          ∷ (Call.final, Call.ctx_free ∷ [])
          ∷ (Call.get_tag 16, Call.ctx_free ∷ [])
          ∷ [])

unfoldable pub tag_steps : Option (List ℕ) → List Step
tag_steps none = []
tag_steps (some tag) = (Call.set_tag tag, Call.ctx_free ∷ []) ∷ []

-- The steps before the final call.
unfoldable pub decrypt_steps :
    List ℕ → Option (List ℕ) → List ℕ → List ℕ → Option (List ℕ) → List Step
decrypt_steps cipher aad key iv tag =
    (Call.ctx_new, [])
    ∷ (Call.init_type, Call.ctx_free ∷ [])
    ∷ (Call.set_ivlen 16, Call.ctx_free ∷ [])
    ∷ (Call.init_key key iv, Call.ctx_free ∷ [])
    ∷ (aad_steps aad ++ (Call.update_text cipher, Call.ctx_free ∷ []) ∷ tag_steps tag)

module _ (evp : Evp) where
  -- The steps up to the first of which the call fails, and then the branch of that one: whether none
  -- failed, and the calls made, after those in `made`.
  unfoldable pub attempt : List Step → List Call → Bool × List Call
  attempt [] made = (true, made)
  attempt ((c, on_failure) ∷ steps) made =
      let rest = attempt steps (made ++ c ∷ []) in
      if evp.fails made c then (false, (made ++ c ∷ []) ++ on_failure) else rest

  -- The end of an encryption.
  abbrev pub encrypted : Bool × List Call → (List ℕ × Option (List ℕ)) × List Call
  encrypted (false, made) = ((evp.text made, none), made)
  encrypted (true, made) = ((evp.text made, some (evp.tag made)), made ++ Call.ctx_free ∷ [])

  -- What is written to `encrypted_out` and to `tag`, with the calls; `EncryptAES256` returns nothing, so
  -- a caller does not learn that the two are not written.
  unfoldable pub encrypt_aes256 :
      List ℕ → Option (List ℕ) → List ℕ → List ℕ → (List ℕ × Option (List ℕ)) × List Call
  encrypt_aes256 to_encrypt aad key iv =
      encrypted (attempt (encrypt_steps to_encrypt aad key iv) [])

  -- The end of a decryption: the context is freed after the final call, before its result is tested.
  abbrev pub decrypted : Bool × List Call → (Option ℕ × List ℕ) × List Call
  decrypted (false, made) = ((none, evp.text made), made)
  decrypted (true, made) =
      let text = evp.text (made ++ Call.final ∷ []) in
      let calls = made ++ Call.final ∷ Call.ctx_free ∷ [] in
      ((if evp.fails made Call.final then none else some (length text), text), calls)

  -- `DecryptAES256`: the length of the text, or `none` for -1, with what is written to `plain_out`.
  unfoldable pub decrypt_aes256 :
      List ℕ → Option (List ℕ) → List ℕ → List ℕ → Option (List ℕ) → (Option ℕ × List ℕ) × List Call
  decrypt_aes256 cipher aad key iv tag =
      decrypted (attempt (decrypt_steps cipher aad key iv tag) [])

-- `sprintf` of a byte with the format `%02x`, without the terminator.
unfoldable pub hex_digit : ℕ → ℕ
hex_digit n = if ltb n 10 then 48 + n else 87 + n

-- `HexStringifyBytes`: the text in `out`, whose terminator is behind it.
unfoldable pub hex_stringify_bytes : List ℕ → List ℕ
unfolding hex_digit
hex_stringify_bytes [] = []
hex_stringify_bytes (b ∷ bytes) =
    hex_digit (b / 16) ∷ hex_digit (b % 16) ∷ hex_stringify_bytes bytes
