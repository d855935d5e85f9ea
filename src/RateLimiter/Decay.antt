-- ===== src/RateLimiter/Decay.antt =====
-- The debt of a client is paid off as time passes.
use openstreetmap_cgimap.Prelude.{
  ℕ, ◌+◌, ◌-◌, ◌*◌, ◌/◌, ◌%◌, ◌^◌, ◌≤◌, ◌<◌, ◌≡◌, sym, ap, ◌∙◌, true, false, some, arith, ltb,
  if◌then◌else◌, ℕ-Eq, String-Eq,
}
use openstreetmap_cgimap.Prelude.Int.{pos, ℤ-Eq}
use openstreetmap_cgimap.Types.{ObjectType-Eq, Pair-Eq}
use native.Mathlib.Nat.{add-mul, div-add-mod', mod-lt, le-mul_of_pos_right}
use openstreetmap_cgimap.RateLimiter.{RateState, RateSettings, bytes_left, to_int32, check}

-- More time pays off more, whether one looks in between or not.
bytes_left-later :
    (settings : RateSettings) (st : RateState) (now n : ℕ)
    → st.last_update ≤ now
    → bytes_left settings (now + n) st ≡ (
        if ltb (n * settings.bytes_per_sec) (bytes_left settings now st)
        then bytes_left settings now st - n * settings.bytes_per_sec
        else 0)
unfolding bytes_left
bytes_left-later settings st now n later =
    let rate = settings.bytes_per_sec in
    let passed : now + n - st.last_update ≡ now - st.last_update + n = omega arith in
    let paid : (now + n - st.last_update) * rate ≡ (now - st.last_update) * rate + n * rate =
      ap (λ t. t * rate) passed ∙ add-mul (now - st.last_update) n rate in
    ground (arith, paid)

bytes_left-le :
    (settings : RateSettings) (st : RateState) (now : ℕ)
    → st.last_update ≤ now
    → bytes_left settings now st ≤ st.bytes_served
unfolding bytes_left
bytes_left-le settings st now later = ground arith

to_int32-pos : (m n : ℕ) → to_int32 m ≡ pos n → m ≡ n
to_int32-pos m n h = ground arith

-- A client that is told to wait is no longer blocked after it has waited for that long, if it is
-- served nothing in the meantime. The conditions are that the settings are positive, that the clock
-- is not behind the entry, that the bytes served are a uint32_t, and that the seconds fit into an
-- int.
pub check-waits :
    (settings : RateSettings) (st : RateState) (now n : ℕ)
    → 0 < settings.bytes_per_sec
    → 0 < settings.max_bytes
    → st.last_update ≤ now
    → st.bytes_served < 2 ^ 32
    → check settings (some st) now ≡ (true, pos n)
    → check settings (some st) (now + n) ≡ (false, pos 0)
unfolding check
check-waits settings st now n rate_positive max_positive later fits h =
    let rate = settings.bytes_per_sec in
    let left = bytes_left settings now st in
    let quotient = (left - settings.max_bytes) / rate in
    let whole = div-add-mod' (left - settings.max_bytes) rate in
    let rest = mod-lt (left - settings.max_bytes) rate_positive in
    let blocked : settings.max_bytes ≤ left = ground arith in
    let most : quotient ≤ quotient * rate = le-mul_of_pos_right quotient rate_positive in
    let told : to_int32 ((quotient + 1) % 2 ^ 32) ≡ pos n = ground (arith, blocked) in
    let exact : (quotient + 1) % 2 ^ 32 ≡ quotient + 1 =
      omega (arith, most, whole, fits, bytes_left-le settings st now later, blocked) in
    let seconds : n ≡ quotient + 1 = sym (to_int32-pos _ n told) ∙ exact in
    let pays : n * rate ≡ quotient * rate + rate =
      ap (λ t. t * rate) seconds ∙ (add-mul quotient 1 rate ∙ omega arith) in
    let less : bytes_left settings (now + n) st < settings.max_bytes =
      ground (arith, bytes_left-later settings st now n later, pays, whole, rest, blocked) in
    ground (arith, less)
