-- ===== src/Pow/Retarget/Bounds.antt =====
-- The next target of Dogecoin: it is computed without a panic, and how far it may move.
use rust_dogecoin.Common.{
  ℕ, ◌+◌, ◌-◌, ◌*◌, ◌/◌, ◌%◌, ◌^◌, ◌≤◌, ◌<◌, ◌≡◌, arith, ◌∙◌, true, false, Bool, some, inl, inr,
  Bool-cases, if◌then◌else◌,
}
use rust_dogecoin.Common.Int.{ℤ, pos}
use rust_dogecoin.Dogecoin.Params.{Params, is_digishield_activated, pow_target_timespan}
use rust_dogecoin.Pow.U256
use rust_dogecoin.Pow.U256.{U256, IsU256, value, u256}
use Prim.Native.Nat.{min}
use mathlib.Core.Path.{subst}
use rust_dogecoin.Pow.U256.Sum.{lt-value, le-value}
use rust_dogecoin.Pow.U256.Shift.{wrapping_shr_lem, wrapping_shl_lem}
use rust_dogecoin.Pow.U256.Operators.{add_exact, mul_exact}
use rust_dogecoin.Pow.U256.Inverse.{div_lem}
use rust_dogecoin.Pow.Target.{
  Target, CompactTarget, target, from_compact, to_compact_lossy, min_target,
  max_transition_threshold_unchecked,
}
use rust_dogecoin.Pow.Target.Lossy.{from_compact-IsU256, from_compact-to_compact_lossy}
use rust_dogecoin.Pow.Retarget.{
  max_transition_threshold_dogecoin, modulated_timespan, from_next_work_required_dogecoin,
}
use rust_dogecoin.Pow.Retarget.Timespan.{
  IsModest, longest, counted, seconds, seconds_bounds, pow_target_timespan-seconds,
  modulated_timespan-counted, counted-le-longest,
}

-- The largest next target: 3/2 of the previous one with Digishield and 4 times it before.
abbrev pub ceiling : Bool → ℕ → ℕ
ceiling true t = t + t / 2
ceiling false t = 4 * t

min_target-value :
    (a b : Target)
    → IsU256 a.inner
    → IsU256 b.inner
    → (value (min_target a b).inner ≡ min (value a.inner) (value b.inner))
      × IsU256 (min_target a b).inner
min_target-value a b ha hb =
    let e = lt-value b.inner a.inner hb ha in
    elim (Bool-cases (U256.lt b.inner a.inner)) [
      | inl less ↦ rw less (ground (arith, e, less), hb)
      | inr more ↦ rw more (ground (arith, e, more), ha)
    ]

max_transition_threshold_unchecked-value :
    (t : Target)
    → IsU256 t.inner
    → value t.inner < 2 ^ 254
    → (value (max_transition_threshold_unchecked t).inner ≡ 4 * value t.inner)
      × IsU256 (max_transition_threshold_unchecked t).inner
unfolding max_transition_threshold_unchecked
max_transition_threshold_unchecked-value t ht b =
    let (v, w) = wrapping_shl_lem t.inner 2 ht (omega arith) in (omega (arith, v), w)

-- For a target below 2^254 and a largest attainable target of 256 bits, the largest next target is
-- computed without a panic: it is the smaller of the height's ceiling (3/2 of the target with
-- Digishield, 4 times before) and the network's largest attainable target.
pub max_transition_threshold_dogecoin_lem :
    (debug : Bool) (t : Target) (p : Params) (height : ℕ)
    → IsU256 t.inner
    → IsU256 p.max_attainable_target.inner
    → value t.inner < 2 ^ 254
    → (r : Target) × (max_transition_threshold_dogecoin debug t p height ≡ some r)
      × (value r.inner
          ≡ min
              (ceiling (is_digishield_activated p height) (value t.inner))
              (value p.max_attainable_target.inner))
      × IsU256 r.inner
unfolding max_transition_threshold_dogecoin
max_transition_threshold_dogecoin_lem debug t p height ht hm b =
    elim (Bool-cases (is_digishield_activated p height)) [
      | inl on ↦
          let (hv, hw) = wrapping_shr_lem t.inner 1 ht (omega arith) in
          let (u, e, uv, uw) =
            add_exact debug t.inner (U256.wrapping_shr t.inner 1) ht hw (omega (arith, hv)) in
          let (mv, mw) = min_target-value (target u) p.max_attainable_target uw hm in
          (
            min_target (target u) p.max_attainable_target,
            rw (on, e),
            rw on (omega (arith, mv, uv, hv)),
            mw,
          )
      | inr off ↦
          let (uv, uw) = max_transition_threshold_unchecked-value t ht b in
          let (mv, mw) =
            min_target-value (max_transition_threshold_unchecked t) p.max_attainable_target uw hm in
          (
            min_target (max_transition_threshold_unchecked t) p.max_attainable_target,
            rw off,
            rw off (omega (arith, mv, uv)),
            mw,
          )
    ]

-- The next target before it is written: the previous one times the timespan over the target
-- timespan, capped.
abbrev pub next_target : Bool → ℕ → ℕ → ℕ → ℕ → ℕ
next_target digishield t timespan n limit =
    min (t * timespan / n) (min (ceiling digishield t) limit)

-- `c` is the next target written down: it is at most `n`, and loses at most one part in 2^15.
pub record IsWritten (n : ℕ) (c : CompactTarget) : Type 0 where
  pub at_most : value (from_compact c).inner ≤ n
  pub close : 2 ^ 15 * (n - value (from_compact c).inner) ≤ n

smaller-value :
    (a b : U256)
    → IsU256 a
    → IsU256 b
    → (value (if U256.le a b then target a else target b).inner ≡ min (value b) (value a))
      × IsU256 (if U256.le a b then target a else target b).inner
smaller-value a b ha hb =
    let e = le-value a b ha hb in
    elim (Bool-cases (U256.le a b)) [
      | inl less ↦ rw less (ground (arith, e, less), ha)
      | inr more ↦ rw more (ground (arith, e, more), hb)
    ]

longest-le : (digishield : Bool) (n : ℕ) → n ≤ 14400 → longest digishield n ≤ 57600
longest-le true n h = omega arith
longest-le false n h = omega arith

low_value : (x : ℕ) → value (U256.from_u128 x) ≡ x
low_value x = omega arith

-- What the code returns when each of its steps returns.
next_work_steps :
    (debug : Bool) (last : CompactTarget) (z : ℤ) (p : Params) (height m n : ℕ) {top : Target}
    {product quotient : U256}
    → p.no_pow_retargeting ≡ false
    → modulated_timespan debug z p height ≡ some (pos m)
    → max_transition_threshold_dogecoin debug (from_compact last) p height ≡ some top
    → m < 2 ^ 64
    → U256.mul debug (from_compact last).inner (U256.from_u128 m) ≡ some product
    → pow_target_timespan p height ≡ pos n
    → n < 2 ^ 64
    → U256.div product (U256.from_u128 n) ≡ some quotient
    → from_next_work_required_dogecoin debug last z p height
      ≡ some (to_compact_lossy (if U256.le top.inner quotient then top else target quotient))
unfolding from_next_work_required_dogecoin
next_work_steps debug last z p height m n on em et bm ep en bn eq =
    let word : m % 2 ^ 64 ≡ m = omega arith in
    let word_n : n % 2 ^ 64 ≡ n = omega arith in rw (em, et, word, ep, en, word_n, eq, on)

times_fits : (t m : ℕ) → t ≤ 2 ^ 240 → m ≤ 57600 → t * m < 2 ^ 256
times_fits t m h k = omega (arith, both t (2 ^ 240) m 57600 h k)
  where
    both : (a b c d : ℕ) → a ≤ b → c ≤ d → a * c ≤ b * d
    both a b c d h k = grind arith

-- On a network that retargets, for a timespan within 2^62 of zero, bits below 2^32 whose target is
-- at most 2^240, and a largest attainable target of 256 bits, the next bits are computed without a
-- panic. They read back as at most the smallest of target * counted timespan / target timespan, the
-- height's ceiling and the network's limit, and lose at most one part in 2^15 of it. The counted
-- timespan is the one between the height's bounds that is the nearest to what is aimed at: with
-- Digishield the target timespan and an eighth of the deviation from it, before it the given
-- timespan.
pub from_next_work_required_dogecoin_lem :
    (debug : Bool) (last : CompactTarget) (z : ℤ) (p : Params) (height : ℕ)
    → p.no_pow_retargeting ≡ false
    → IsModest z
    → last.consensus < 2 ^ 32
    → IsU256 p.max_attainable_target.inner
    → value (from_compact last).inner ≤ 2 ^ 240
    → (c : CompactTarget) × (from_next_work_required_dogecoin debug last z p height ≡ some c)
      × IsWritten
          (next_target
            (is_digishield_activated p height)
            (value (from_compact last).inner)
            (counted (is_digishield_activated p height) height (seconds p height) z)
            (seconds p height)
            (value p.max_attainable_target.inner))
          c
from_next_work_required_dogecoin_lem debug last z p height on modest hl hm small =
    let ht = from_compact-IsU256 last hl in
    let t = (from_compact last).inner in
    let n = seconds p height in
    let (least, most) = seconds_bounds p height in
    let d = is_digishield_activated p height in
    let m = counted d height n z in
    let below = counted-le-longest d height n z in
    let few : m ≤ 57600 = omega (arith, below, longest-le d n most) in
    let (top, et, tv, tw) =
      max_transition_threshold_dogecoin_lem debug (from_compact last) p height ht hm
        (omega (arith, small)) in
    let (product, ep, pv, pw) =
      mul_exact debug t (U256.from_u128 m) ht (omega (arith, few)) (omega (arith, few))
        (rw (low_value m) (times_fits (value t) m small few)) in
    let (quotient, eq, qv, qw) =
      div_lem product (U256.from_u128 n) pw (omega (arith, most)) (omega (arith, least)) in
    let (sv, sw) = smaller-value top.inner quotient tw qw in
    let next = if U256.le top.inner quotient then target top.inner else target quotient in
    let (low, close) = from_compact-to_compact_lossy next sw in
    let whole : value next.inner
        ≡ next_target d (value t) m n (value p.max_attainable_target.inner) =
      sv ∙ rw (tv, qv, pv, low_value m, low_value n) in
    (
      to_compact_lossy next,
      next_work_steps debug last z p height m n on
          (modulated_timespan-counted debug z p height modest) et (omega (arith, few)) ep
          (pow_target_timespan-seconds p height) (omega (arith, most)) eq,
      subst (λ k. IsWritten k (to_compact_lossy next)) whole
          (record { at_most = low; close = close }),
    )
