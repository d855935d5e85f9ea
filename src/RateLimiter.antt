-- ===== src/RateLimiter.antt =====
-- src/rate_limiter.cpp: how many bytes a client still owes, and for how long it is blocked. The entry
-- of the client in memcached is an argument, and `none` where there is none.
pub mod Decay
mod Tests
use openstreetmap_cgimap.Prelude.{
  ℕ, zero, suc, ◌+◌, ◌-◌, ◌*◌, ◌/◌, ◌%◌, ◌^◌, ◌≤◌, ◌<◌, String, ◌≡◌, refl, sym, ap, ap₂, ◌∙◌, ◌≢◌,
  ◌↔◌, ◌⊎◌, inl, inr, Bool, true, false, not, ◌&&◌, ◌||◌, Option, none, some, List, [], ◌∷◌, ◌++◌,
  map, arith, ltb, leb, eqb, if◌then◌else◌, eqb_iff, Eq, ◌==◌, ==_refl, ℕ-Eq, String-Eq, Bool-cases,
  Option-cases, length, get_elem?, length-append, All, Any, List-cases, get_or, to_list,
  get_elem?-append, get_elem?-none, get_or-append, get_or_default,
}
use openstreetmap_cgimap.Prelude.Int.{
  ℤ, pos, negsuc, pos_part, neg_part, ◌+ℤ◌, ◌-ℤ◌, ◌*ℤ◌, ◌≤ℤ◌, ltb_ℤ, eqb_ℤ, eqb_ℤ_iff, ℤ-Eq,
  int_laws, IsInt64, to_uint64, to_int64, to_int64-to_uint64,
}
use openstreetmap_cgimap.StdMap.{
  StdMap, find, contains, insert, assign, insert_all, find-insert, find-assign, find-insert_all,
  find_first, find_first_key, is_some, find_first_iff,
}
use openstreetmap_cgimap.Types.{
  Error, bad_request, payload_error, not_found, conflict, gone, precondition_failed, server_error,
  runtime_error, assertion_failed, Result, ok, err, ◌>>=◌, ◌>>◌, guard, >>=-eq-ok, ok-injective,
  Result-cases, >>=-assoc, >>=-ok, >>=-cong, is_ok, Operation, op_undefined, op_create, op_modify,
  op_delete, ObjectType, node, way, relation, ObjectKey, EditionKey, ObjectType-Eq, Pair-Eq,
}

-- struct memcached_rate_limiter::state
pub record RateState : Type 0 where
  pub last_update : ℕ
  pub bytes_served : ℕ

-- The settings for one kind of user.
pub record RateSettings : Type 0 where
  pub bytes_per_sec : ℕ
  pub max_bytes : ℕ

-- The bytes that are left after the time that has passed, as a uint32_t. When the clock was set
-- back, the time that has passed is negative.
unfoldable pub bytes_left : RateSettings → ℕ → RateState → ℕ
bytes_left settings now st =
    if leb st.last_update now
    then (let paid = (now - st.last_update) * settings.bytes_per_sec in
        if ltb paid st.bytes_served then st.bytes_served - paid else 0)
    else (st.bytes_served + (st.last_update - now) * settings.bytes_per_sec) % 2 ^ 32

-- The conversion of a uint32_t to int.
abbrev pub to_int32 : ℕ → ℤ
to_int32 n = if ltb n (2 ^ 31) then pos n else negsuc (2 ^ 32 - n - 1)

-- Whether the client is blocked, and the seconds to wait.
unfoldable pub check : RateSettings → Option RateState → ℕ → Bool × ℤ
unfolding bytes_left
check settings entry now =
    let bytes_served : ℕ = elim entry [ none ↦ 0 | some st ↦ bytes_left settings now st ] in
    if ltb bytes_served settings.max_bytes then (false, pos 0) else (
      true,
      to_int32 (((bytes_served - settings.max_bytes) / settings.bytes_per_sec + 1) % 2 ^ 32),
    )

-- The entry that is stored. The time after which memcached forgets it is not modelled.
unfoldable pub update : RateSettings → Option RateState → ℕ → ℕ → RateState
unfolding bytes_left
update settings none bytes now = record { last_update = now; bytes_served = bytes }
update settings (some st) bytes now = record {
  last_update = now;
  bytes_served = (bytes_left settings now st + bytes) % 2 ^ 32;
}
