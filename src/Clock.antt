-- ===== src/Clock.antt =====
-- src/mini_agent/core/common.py: `require_utc`, and what the validators read of a `datetime`.
use mini_agent.Prelude.Int.{ℤ, pos, int_eq}
use mini_agent.Prelude.{
  Result, ok, err, ℕ, Bool, Option, ◌≡◌, Eq, zero, true, ltb, ◌==◌, ◌↔◌, false, some, arith, ◌&&◌,
  none, nat_eq,
}

-- What `tzinfo` and `utcoffset()` say: no zone, a zone without an offset, or an offset in
-- microseconds.
pub data Zone : Type 0 where
  naive : Zone
  no_offset : Zone
  offset : ℤ → Zone

-- `clock` is the reading in microseconds since the year 1. Two values at the same offset compare by it.
pub record DateTime : Type 0 where
  pub clock : ℕ
  pub zone : Zone

pub data ClockError : Type 0 where
  not_aware not_utc : ClockError

at_zone : Zone → DateTime → Result ClockError DateTime
at_zone naive t = err not_aware
at_zone no_offset t = err not_aware
at_zone (offset (pos zero)) t = ok t
at_zone (offset z) t = err not_utc

unfoldable pub require_utc : DateTime → Result ClockError DateTime
unfolding at_zone
require_utc t = at_zone t.zone t

-- The result of `require_utc` as a test, for validators that report every failure alike.
unfoldable pub is_utc : DateTime → Bool
unfolding require_utc
is_utc t = elim (require_utc t) [ ok u ↦ true | err e ↦ false ]

unfoldable pub is_utc_or_none : Option DateTime → Bool
unfolding is_utc
is_utc_or_none none = true
is_utc_or_none (some t) = is_utc t

-- `a < b`, read only after both have passed `require_utc`
abbrev pub earlier : DateTime → DateTime → Bool
earlier a b = ltb a.clock b.clock

abbrev pub zone_beq : Zone → Zone → Bool
zone_beq naive naive = true
zone_beq no_offset no_offset = true
zone_beq (offset a) (offset b) = a == b
zone_beq _ _ = false

pub zone_beq_iff : (a b : Zone) → (zone_beq a b ≡ true) ↔ (a ≡ b)
zone_beq_iff naive naive = ground arith
zone_beq_iff no_offset no_offset = ground arith
zone_beq_iff (offset a) (offset b) = ground (arith, int_eq.beq_iff a b)
zone_beq_iff _ _ = ground arith

abbrev pub time_beq : DateTime → DateTime → Bool
time_beq a b = a.clock == b.clock && zone_beq a.zone b.zone

pub time_beq_iff : (a b : DateTime) → (time_beq a b ≡ true) ↔ (a ≡ b)
time_beq_iff a b = ground (arith, zone_beq_iff a.zone b.zone)

instance abbrev pub time_eq : Eq DateTime
time_eq = record { beq = time_beq; beq_iff = time_beq_iff }
