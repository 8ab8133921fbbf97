-- ===== src/Subscriptions.antt =====
-- Following agents: the endpoint of meritmolt/events/router.py over the table subscribe
-- (textlake/models/subscribe.py), with the triggers that number the rows and tell MeritRank
-- (meritmolt/schema/ddl.py). The calls of pgmer2 are kept as a list, the latest first.
pub mod Edges
pub mod Agreement
use meritmolt.Prelude.{
  ℕ, suc, Bool, true, false, not, ◌&&◌, ◌||◌, Option, none, some, List, [], ◌∷◌, ◌++◌, ◌==◌,
  find_if, keep_if, update_if, if◌then◌else◌,
}
use meritmolt.Text.{Text, same_text}
use meritmolt.Errors.{Result, ok, err, unhandled}

pub record Subscribe : Type 0 where
  pub subject : Text
  pub object : Text
  pub amount : ℕ
  pub ticker : ℕ

pub data Call : Type 0 where
  put_edge : (src dst : Text) (weight : ℕ) (board : Text) (ticker : ℕ) → Call
  delete_edge : (src dst board : Text) → Call

-- The rows, user_vsids (0 where there is no row), and the calls.
pub record Graph : Type 0 where
  pub rows : List Subscribe
  pub vsids : Text → ℕ
  pub calls : List Call

-- `LEFT(raw_id, 1) IN ('U', 'B', 'C')`.
abbrev pub is_kind : ℕ → Bool
is_kind c = (c == 85) || ((c == 66) || (c == 67))

unfoldable pub mm_pgmer_prefix : ℕ → Text → Text
mm_pgmer_prefix kind [] = []
mm_pgmer_prefix kind (c ∷ cs) = if is_kind c then c ∷ cs else kind ∷ c ∷ cs

-- Inserts 1, or adds 1 to what is there.
abbrev pub bump_vsids : Text → (Text → ℕ) → Text → ℕ
bump_vsids user vsids other = if same_text other user then suc (vsids other) else vsids other

abbrev pub has_pair : Text → Text → Subscribe → Bool
has_pair subject object row = same_text row.subject subject && same_text row.object object

-- The AFTER INSERT OR UPDATE trigger.
unfoldable pub notify_put : Subscribe → List Call → List Call
notify_put row calls =
    put_edge (mm_pgmer_prefix 85 row.subject) (mm_pgmer_prefix 85 row.object) row.amount []
      row.ticker
    ∷ calls

-- The AFTER DELETE trigger.
unfoldable pub notify_delete : Text → Text → List Call → List Call
notify_delete subject object calls =
    delete_edge (mm_pgmer_prefix 85 subject) (mm_pgmer_prefix 85 object) [] ∷ calls

abbrev pub follow_row : Text → Text → ℕ → Subscribe
follow_row subject object ticker = record {
  subject = subject;
  object = object;
  amount = 1;
  ticker = ticker;
}

-- INSERT ... ON CONFLICT DO UPDATE SET amount = 1. The BEFORE INSERT trigger bumps the subject's
-- counter in both cases, and on a conflict the BEFORE UPDATE trigger bumps it again.
unfoldable pub put_row : Option Subscribe → Text → Text → Graph → Graph
put_row none subject object g =
    let vsids = bump_vsids subject g.vsids in
    let row = follow_row subject object (vsids subject) in
    record { rows = g.rows ++ row ∷ []; vsids = vsids; calls = notify_put row g.calls }
put_row (some old) subject object g =
    let vsids = bump_vsids subject (bump_vsids subject g.vsids) in
    let row = follow_row subject object (vsids subject) in
    record {
      rows = update_if (has_pair subject object) (λ _. row) g.rows;
      vsids = vsids;
      calls = notify_put row g.calls;
    }

-- DELETE of the pair's row.
unfoldable pub delete_row : Option Subscribe → Text → Text → Graph → Graph
delete_row none subject object g = g
delete_row (some old) subject object g = record g {
  rows = keep_if (λ row. not (has_pair subject object row)) g.rows;
  calls = notify_delete subject object g.calls;
}

pub data Action : Type 0 where
  follow unfollow : Action

-- agent_subscription. `known` says which agents mb_agent has: the foreign keys refuse others.
unfoldable pub agent_subscription : (Text → Bool) → Action → Text → Text → Graph → Result Graph
agent_subscription known follow actor target g =
    if known actor && known target
    then ok (put_row (find_if (has_pair actor target) g.rows) actor target g)
    else err unhandled
agent_subscription known unfollow actor target g =
    ok (delete_row (find_if (has_pair actor target) g.rows) actor target g)

abbrev pub kept_or : Graph → Result Graph → Graph
kept_or g (ok after) = after
kept_or g (err e) = g

abbrev pub Request : Type 0
Request = Action × Text × Text

-- A history of requests; one that raises is rolled back.
unfoldable pub subscribe_all : (Text → Bool) → List Request → Graph → Graph
subscribe_all known [] g = g
subscribe_all known ((action, actor, target) ∷ rest) g =
    subscribe_all known rest (kept_or g (agent_subscription known action actor target g))

abbrev pub empty_graph : Graph
empty_graph = record { rows = []; vsids = λ _. 0; calls = [] }
