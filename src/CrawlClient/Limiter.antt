-- ===== src/CrawlClient/Limiter.antt =====
-- How MoltbookClient tightens its limiter (textlake/client.py).
use meritmolt.Prelude.{
  ℕ, zero, suc, ◌≤◌, ◌≡◌, refl, ◌∙◌, max, ◌/◌, Bool, false, Option, none, some, List, [], ◌∷◌, ltb,
  if◌then◌else◌, arith, Bool-cases, count_if, inl, inr,
}
use meritmolt.Text.{Text}
use meritmolt.CrawlClient.{
  Response, unreachable, response, adjust_limiter, rate_after, rate_all, int_of, is_spent, Whole,
  tightened,
}

abbrev reads_spent : Option Whole → Bool
reads_spent none = false
reads_spent (some n) = is_spent n

abbrev says_spent : Option Text → Bool
says_spent none = false
says_spent (some remaining) = reads_spent (int_of remaining)

-- The answer says that no requests are left.
unfoldable pub says_none_left : Response → Bool
says_none_left unreachable = false
says_none_left (response status headers body) = says_spent headers.ratelimit_remaining

abbrev halved : ℕ → ℕ
halved rate = max 1 (rate / 2)

-- A number of halvings, rounded down, that stop at 1.
unfoldable pub halvings : ℕ → ℕ → ℕ
halvings zero rate = rate
halvings (suc n) rate = halvings n (max 1 (rate / 2))

tightened-halves :
    (remaining : Option Whole) (rate : ℕ)
    → 1 ≤ rate
    → tightened remaining rate ≡ (if reads_spent remaining then halved rate else rate)
tightened-halves none rate h = refl
tightened-halves (some n) rate h = elim (Bool-cases (is_spent n)) [
  | inr f ↦ rw f refl
  | inl t ↦ elim (Bool-cases (ltb 1 rate)) [
    | inl u ↦ rw (t, u) refl
    | inr u ↦ let e : rate ≡ 1 = ground arith in rw (t, u, e) refl
  ]
]

adjust_limiter-halves :
    (remaining : Option Text) (rate : ℕ)
    → 1 ≤ rate
    → adjust_limiter remaining rate ≡ (if says_spent remaining then halved rate else rate)
unfolding adjust_limiter
adjust_limiter-halves none rate h = refl
adjust_limiter-halves (some remaining) rate h = tightened-halves (int_of remaining) rate h

rate_after-halves :
    (r : Response) (rate : ℕ)
    → 1 ≤ rate
    → rate_after r rate ≡ (if says_none_left r then halved rate else rate)
unfolding rate_after says_none_left
rate_after-halves unreachable rate h = refl
rate_after-halves (response status headers body) rate h =
    adjust_limiter-halves headers.ratelimit_remaining rate h

-- After any answers the limiter's rate, positive at first, is what it was at first halved as often
-- as an answer said that no requests were left, rounded down and never below 1: the order of the
-- answers, their statuses and the other headers do not matter.
pub rate_all-halvings :
    (answers : List Response) (rate : ℕ)
    → 1 ≤ rate
    → rate_all answers rate ≡ halvings (count_if says_none_left answers) rate
unfolding rate_all halvings
rate_all-halvings [] rate h = refl
rate_all-halvings (r ∷ rest) rate h = elim (Bool-cases (says_none_left r)) [
  | inl t ↦
      let e : rate_after r rate ≡ halved rate = rate_after-halves r rate h ∙ (rw t refl) in
      rw (t, e) (rate_all-halvings rest (halved rate) (omega arith))
  | inr f ↦
      let e : rate_after r rate ≡ rate = rate_after-halves r rate h ∙ (rw f refl) in
      rw (f, e) (rate_all-halvings rest rate h)
]
