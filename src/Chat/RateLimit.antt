-- ===== src/Chat/RateLimit.antt =====
-- The countdown of the rate limit of frontend/src/store/modules/chat/index.ts. Times are
-- milliseconds; a remaining time below 0 is 0 here, which the code's `Math.max` and `<= 0` do not
-- tell apart.
use smart_copilot.Common.{
  ℕ, ◌≡◌, refl, ap, ◌∙◌, Bool, true, false, ◌+◌, ◌-◌, ◌*◌, ◌/◌, ◌<◌, Option, none, some, List, [],
  ◌∷◌, arith, if◌then◌else◌, ltb, leb, eqb, all, Bool-cases, inl, inr,
}

-- `timer` is whether `rateLimitTimer` holds an interval.
pub record RateLimit : Type 0 where
  pub limit_until : Option ℕ
  pub remaining_seconds : ℕ
  pub timer : Bool

-- `Math.ceil(ms / 1000)`
abbrev pub ceil_seconds : ℕ → ℕ
ceil_seconds ms = (ms + 999) / 1000

abbrev pub clear_rate_limit_timer : RateLimit → RateLimit
clear_rate_limit_timer r = record r { timer = false }

abbrev pub clear_rate_limit_countdown : RateLimit → RateLimit
clear_rate_limit_countdown r = record { limit_until = none; remaining_seconds = 0; timer = false }

abbrev pub sync_until : ℕ → ℕ → RateLimit → RateLimit
sync_until now limit_until r =
    if leb limit_until now
    then clear_rate_limit_countdown r
    else record r { remaining_seconds = ceil_seconds (limit_until - now) }

unfoldable pub sync_rate_limit_countdown : ℕ → RateLimit → RateLimit
sync_rate_limit_countdown now r = elim (r.limit_until) [
  | none ↦ record r { remaining_seconds = 0 }
  | some limit_until ↦
      if eqb limit_until 0 then record r { remaining_seconds = 0 } else sync_until now limit_until r
]

-- `normalized_seconds` is the retry time, rounded up to whole seconds.
unfoldable pub start_rate_limit_countdown : ℕ → ℕ → RateLimit → RateLimit
unfolding sync_rate_limit_countdown
start_rate_limit_countdown now normalized_seconds r =
    if leb normalized_seconds 0
    then clear_rate_limit_countdown r
    else (let synced =
          sync_rate_limit_countdown now
            (record r { limit_until = some (now + normalized_seconds * 1000) }) in
        record (clear_rate_limit_timer synced) { timer = true })

abbrev pub is_rate_limited : RateLimit → Bool
is_rate_limited r = ltb 0 r.remaining_seconds

-- The interval calls `syncRateLimitCountdown` while it stands.
unfoldable pub ticks : List ℕ → RateLimit → RateLimit
unfolding sync_rate_limit_countdown
ticks [] r = r
ticks (now ∷ ts) r = ticks ts (if r.timer then sync_rate_limit_countdown now r else r)

abbrev counting : ℕ → ℕ → RateLimit
counting limit_until seconds = record {
  limit_until = some limit_until;
  remaining_seconds = seconds;
  timer = true;
}

abbrev stopped : RateLimit
stopped = record { limit_until = none; remaining_seconds = 0; timer = false }

start_counting :
    (now n : ℕ) (r : RateLimit)
    → 0 < n
    → start_rate_limit_countdown now n r ≡ counting (now + n * 1000) n
unfolding start_rate_limit_countdown sync_rate_limit_countdown
start_counting now n r h =
    let positive : leb n 0 ≡ false = ground arith in
    let later : eqb (now + n * 1000) 0 ≡ false = ground arith in
    let open_ : leb (now + n * 1000) now ≡ false = ground arith in
    let seconds : ceil_seconds (now + n * 1000 - now) ≡ n = omega arith in
    rw (positive, later, open_, seconds) refl

sync_early :
    (t until seconds : ℕ)
    → 0 < until
    → ltb t until ≡ true
    → sync_rate_limit_countdown t (counting until seconds)
      ≡ counting until (ceil_seconds (until - t))
unfolding sync_rate_limit_countdown
sync_early t until seconds h early =
    let set : eqb until 0 ≡ false = ground arith in
    let open_ : leb until t ≡ false = ground arith in rw (set, open_) refl

sync_late :
    (t until seconds : ℕ)
    → 0 < until
    → ltb t until ≡ false
    → sync_rate_limit_countdown t (counting until seconds) ≡ stopped
unfolding sync_rate_limit_countdown
sync_late t until seconds h late =
    let set : eqb until 0 ≡ false = ground arith in
    let over : leb until t ≡ true = ground arith in rw (set, over) refl

ticks-stopped : (ts : List ℕ) → ticks ts stopped ≡ stopped
unfolding ticks
ticks-stopped [] = refl
ticks-stopped (t ∷ ts) = ticks-stopped ts

ticks-counting :
    (ts : List ℕ) (until seconds : ℕ)
    → 0 < until
    → 0 < seconds
    → is_rate_limited (ticks ts (counting until seconds)) ≡ all (λ t. ltb t until) ts
unfolding ticks sync_rate_limit_countdown
ticks-counting [] until seconds h k = ground arith
ticks-counting (t ∷ ts) until seconds h k = elim (Bool-cases (ltb t until)) [
  | inl early ↦
      let left : 0 < ceil_seconds (until - t) = ground arith in
      ap (λ s. is_rate_limited (ticks ts s)) (sync_early t until seconds h early)
      ∙ rw early (ticks-counting ts until (ceil_seconds (until - t)) h left)
  | inr late ↦
      ap (λ s. is_rate_limited (ticks ts s)) (sync_late t until seconds h late)
      ∙ rw late (ap is_rate_limited (ticks-stopped ts))
]

-- After a countdown of a positive number of seconds was started, and however often and when the
-- interval fired since, sending is limited exactly if it fired at no time from the end on.
pub is_rate_limited-ticks :
    (now seconds : ℕ) (ts : List ℕ) (r : RateLimit)
    → 0 < seconds
    → is_rate_limited (ticks ts (start_rate_limit_countdown now seconds r))
      ≡ all (λ t. ltb t (now + seconds * 1000)) ts
is_rate_limited-ticks now seconds ts r h =
    ap (λ s. is_rate_limited (ticks ts s)) (start_counting now seconds r h)
    ∙ ticks-counting ts (now + seconds * 1000) seconds (omega arith) h
