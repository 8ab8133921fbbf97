-- ===== src/RateLimit/Store.antt =====
-- BucketStore (meritmolt/ratelimit.py): the OrderedDict is the list of its entries, the least
-- recently used first. Times are in nanoseconds.
pub mod Bounds
use meritmolt.Prelude.{
  ℕ, ◌-◌, Bool, not, Option, none, some, List, [], ◌∷◌, ◌++◌, length, find_if, keep_if, update_if,
  leb, ltb, if◌then◌else◌,
}
use meritmolt.Text.{Text, same_text}
use meritmolt.RateLimit.Bucket.{TokenBucket, new_bucket, Answer, try_acquire}

pub record Entry : Type 0 where
  pub key : Text
  pub bucket : TokenBucket
  pub created : ℕ

pub record BucketStore : Type 0 where
  pub max_keys : ℕ
  pub ttl : ℕ
  pub order : List Entry

abbrev pub has_key : Text → Entry → Bool
has_key key e = same_text e.key key

-- The clock at the lookup, at the creation of a bucket, and at try_acquire.
pub record Readings : Type 0 where
  pub looked : ℕ
  pub made : ℕ
  pub taken : ℕ

-- `del self._order[key]`.
abbrev pub without : Text → List Entry → List Entry
without key order = keep_if (λ e. not (has_key key e)) order

-- `while len(self._order) >= self._max_keys and self._order: popitem(last=False)`.
unfoldable pub evict : ℕ → List Entry → List Entry
evict max_keys [] = []
evict max_keys (e ∷ order) =
    let rest = evict max_keys order in if leb max_keys (length (e ∷ order)) then rest else e ∷ order

unfoldable pub create : Text → ℕ → ℕ → Readings → ℕ → List Entry → TokenBucket × List Entry
create key burst refill_rate r max_keys order =
    let bucket = new_bucket burst refill_rate r.made in
    (bucket, evict max_keys order ++ record { key = key; bucket = bucket; created = r.looked } ∷ [])

-- What get_or_create does with the entry of the key, if there is one.
unfoldable pub found_or_create :
    Option Entry → Text → ℕ → ℕ → Readings → BucketStore → TokenBucket × List Entry
found_or_create none key burst refill_rate r store =
    create key burst refill_rate r store.max_keys store.order
found_or_create (some e) key burst refill_rate r store =
    if ltb store.ttl (r.looked - e.created)
    then create key burst refill_rate r store.max_keys (without key store.order)
    else (e.bucket, without key store.order ++ e ∷ [])

unfoldable pub get_or_create : Text → ℕ → ℕ → Readings → BucketStore → TokenBucket × BucketStore
get_or_create key burst refill_rate r store =
    let (bucket, order) =
      found_or_create (find_if (has_key key) store.order) key burst refill_rate r store in
    (bucket, record store { order = order })

-- The caller changes the bucket that get_or_create returned, in place.
abbrev pub set_bucket : Text → TokenBucket → BucketStore → BucketStore
set_bucket key bucket store = record store {
  order = update_if (has_key key) (λ e. record e { bucket = bucket }) store.order;
}

unfoldable pub acquire : Text → ℕ → ℕ → Readings → BucketStore → Answer × BucketStore
acquire key burst refill_rate r store =
    let (bucket, found) = get_or_create key burst refill_rate r store in
    let (answer, changed) = try_acquire r.taken bucket in (answer, set_bucket key changed found)
