-- ===== src/RateLimit/Bucket/Rate.antt =====
-- How fast a token bucket gives out tokens (TokenBucket.try_acquire of meritmolt/ratelimit.py).
use meritmolt.Prelude.{
  ℕ, ◌+◌, ◌-◌, ◌*◌, ◌≤◌, ◌<◌, List, [], ◌∷◌, ◌≡◌, refl, sym, ap, subst, ◌∙◌, inl, inr, ◌⊎◌, arith,
  leb, ◌==◌, Bool-cases,
}
use mathlib.Core.Path.{ap₂}
use native.Mathlib.Nat.{add-mul, mul-le-mul_right}
use meritmolt.RateLimit.Bucket.{
  token, nanoseconds, TokenBucket, new_bucket, allowed, denied, refill, take_token, try_acquire,
  tally, acquire_all,
}

-- The clock never goes back: the times from `start` to the `end` that is asked about.
abbrev pub Monotonic : ℕ → List ℕ → ℕ → Type 0
Monotonic start [] end = start ≤ end
Monotonic start (now ∷ times) end = (start ≤ now) × Monotonic now times end

refill_credit :
    (now : ℕ) (b : TokenBucket)
    → b.last_refill ≤ now
    → (refill now b).tokens + b.last_refill * b.refill_rate ≤ b.tokens + now * b.refill_rate
unfolding refill
refill_credit now b h =
    let apart : (now - b.last_refill) * b.refill_rate + b.last_refill * b.refill_rate
        ≡ now * b.refill_rate =
      sym (add-mul (now - b.last_refill) b.last_refill b.refill_rate)
      ∙ ap (λ t. t * b.refill_rate) (omega arith) in
    omega (arith, apart)

-- The three ways out of try_acquire.
take_token-cases :
    (b : TokenBucket)
    → ((token ≤ b.tokens) × (take_token b ≡ (allowed, record b { tokens = b.tokens - token })))
      ⊎ ((b.tokens < token)
          × (((b.refill_rate ≡ 0) × (take_token b ≡ (denied 60 1, b)))
              ⊎ ((0 < b.refill_rate)
                  × (take_token b ≡ (denied (token - b.tokens) (b.refill_rate * nanoseconds), b)))))
unfolding take_token
take_token-cases b = elim (Bool-cases (leb token b.tokens)) [
  | inl t ↦ inl (ground (arith, t), rw t refl)
  | inr f ↦ inr (
    ground (arith, f),
    elim (Bool-cases (b.refill_rate == 0)) [
      | inl z ↦ inl (ground (arith, z), rw (f, z) refl)
      | inr p ↦ inr (ground (arith, p), rw (f, p) refl)
    ],
  )
]

-- What a request does to the tokens: an allowed one costs a token.
take_token_cost :
    (b : TokenBucket) (n : ℕ)
    → tally (take_token b).0 n * token + (take_token b).1.tokens ≡ n * token + b.tokens
take_token_cost b n = elim (take_token-cases b) [
  | inl (h, e) ↦ rw e (omega (arith, h))
  | inr (h, inl (z, e)) ↦ rw e refl
  | inr (h, inr (p, e)) ↦ rw e refl
]

take_token_settings :
    (b : TokenBucket)
    → ((take_token b).1.refill_rate ≡ b.refill_rate)
      × ((take_token b).1.last_refill ≡ b.last_refill)
      × ((take_token b).1.max_tokens ≡ b.max_tokens)
take_token_settings b = elim (take_token-cases b) [
  | inl (h, e) ↦ rw e (refl, refl, refl)
  | inr (h, inl (z, e)) ↦ rw e (refl, refl, refl)
  | inr (h, inr (p, e)) ↦ rw e (refl, refl, refl)
]

-- What a request does to the credit, and what it leaves alone.
acquire_step :
    (now : ℕ) (b : TokenBucket) (n : ℕ)
    → b.last_refill ≤ now
    → (tally (try_acquire now b).0 n * token
          + (try_acquire now b).1.tokens
          + b.last_refill * b.refill_rate
        ≤ n * token + b.tokens + now * b.refill_rate)
      × ((try_acquire now b).1.refill_rate ≡ b.refill_rate)
      × ((try_acquire now b).1.last_refill ≡ now)
unfolding try_acquire
acquire_step now b n h = (
  omega (arith, take_token_cost (refill now b) n, refill_credit now b h),
  (take_token_settings (refill now b)).0 ∙ (unfold refill in refl),
  (take_token_settings (refill now b)).1 ∙ (unfold refill in refl),
)

-- No bucket gives out faster than its rate: what the requests were allowed, with what the clock had
-- refilled at the start, is at most the tokens at the start and what the clock refilled until
-- `end`, when the clock does not go back.
pub acquire_all_credit :
    (times : List ℕ) (b : TokenBucket) (end : ℕ)
    → Monotonic b.last_refill times end
    → (acquire_all times b).0 * token + b.last_refill * b.refill_rate
      ≤ b.tokens + end * b.refill_rate
unfolding acquire_all
acquire_all_credit [] b end h = omega (arith, mul-le-mul_right b.refill_rate h)
acquire_all_credit (now ∷ times) b end (h, rest) =
    let b1 : TokenBucket = (try_acquire now b).1 in
    let n : ℕ = (acquire_all times b1).0 in
    let (cost, same_rate, at_now) = acquire_step now b n h in
    let later : n * token + now * b.refill_rate ≤ b1.tokens + end * b.refill_rate =
      subst (λ t. n * token + t ≤ b1.tokens + end * b.refill_rate)
        (ap₂ (λ x y. x * y) at_now same_rate)
        (subst (λ r. n * token + b1.last_refill * b1.refill_rate ≤ b1.tokens + end * r) same_rate
          (acquire_all_credit times b1 end
            (subst (λ t. Monotonic t times end) (sym at_now) rest))) in
    omega (arith, cost, later)

Monotonic-le : (start : ℕ) (times : List ℕ) (end : ℕ) → Monotonic start times end → start ≤ end
Monotonic-le start [] end h = h
Monotonic-le start (now ∷ times) end (h, rest) = omega (arith, h, Monotonic-le now times end rest)

-- A new bucket allows at most its burst and what its rate refills from its creation to `end`.
pub acquire_all-new_bucket :
    (burst rate made : ℕ) (times : List ℕ) (end : ℕ)
    → Monotonic made times end
    → (acquire_all times (new_bucket burst rate made)).0 * token
      ≤ burst * token + (end - made) * rate
unfolding new_bucket
acquire_all-new_bucket burst rate made times end h =
    let credit = acquire_all_credit times (new_bucket burst rate made) end h in
    let since : (end - made) * rate + made * rate ≡ end * rate =
      sym (add-mul (end - made) made rate)
      ∙ ap (λ t. t * rate) (omega (arith, Monotonic-le made times end h)) in
    let filled : (new_bucket burst rate made).tokens ≤ burst * token = ground arith in
    omega (arith, credit, since, filled)
