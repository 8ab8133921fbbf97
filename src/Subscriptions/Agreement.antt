-- ===== src/Subscriptions/Agreement.antt =====
-- What a history of follow and unfollow requests (meritmolt/events/router.py) leaves in the table
-- subscribe and in MeritRank.
use meritmolt.Prelude.{
  ℕ, ◌≡◌, refl, sym, ◌∙◌, inl, inr, Bool, ◌&&◌, Option, none, some, List, [], ◌∷◌, find_if,
  if◌then◌else◌, Bool-cases, Option-cases, All,
}
use meritmolt.Text.{Text, same_text, same_text_refl}
use meritmolt.Subscriptions.{
  Subscribe, Graph, has_pair, put_row, delete_row, Action, follow, unfollow, agent_subscription,
  kept_or, Request, subscribe_all, follow_row, bump_vsids,
}
use meritmolt.Subscriptions.Edges.{
  IsPlain, edge_after, user, amount_of, edge_after-notify_put, edge_after-notify_delete,
  put_row-amount, delete_row-amount, pair_cases,
}

-- For every pair of ids, the weight of MeritRank's edge between the users is the row's amount.
abbrev pub Agrees : Graph → Type 0
Agrees g = (s o : Text) → edge_after (user s) (user o) [] g.calls ≡ amount_of s o g.rows

abbrev pub ArePlain : Request → Type 0
ArePlain (action, actor, target) = IsPlain actor × IsPlain target

module _ (subject object : Text) (h : IsPlain subject) (k : IsPlain object) where
  put_row-edge :
      (found : Option Subscribe) (g : Graph) (s o : Text)
      → edge_after (user s) (user o) [] (put_row found subject object g).calls ≡ (
          if same_text subject s && same_text object o
          then some 1
          else edge_after (user s) (user o) [] g.calls)
  unfolding put_row
  put_row-edge none g s o =
      edge_after-notify_put s o (follow_row subject object (bump_vsids subject g.vsids subject))
        g.calls h k
  put_row-edge (some old) g s o =
      let vsids = bump_vsids subject (bump_vsids subject g.vsids) in
      edge_after-notify_put s o (follow_row subject object (vsids subject)) g.calls h k

  put_row-Agrees :
      (g : Graph)
      → Agrees g
      → Agrees (put_row (find_if (has_pair subject object) g.rows) subject object g)
  put_row-Agrees g a s o =
      put_row-edge (find_if (has_pair subject object) g.rows) g s o
      ∙ (rw (a s o) (sym (put_row-amount subject object g s o)))

  delete_row-edge :
      (g : Graph) (s o : Text)
      → Agrees g
      → edge_after
          (user s)
          (user o)
          []
          (delete_row (find_if (has_pair subject object) g.rows) subject object g).calls
        ≡ (if same_text subject s && same_text object o
            then none
            else edge_after (user s) (user o) [] g.calls)
  unfolding delete_row
  delete_row-edge g s o a = elim (Option-cases (find_if (has_pair subject object) g.rows)) [
    | inr (old, e) ↦ rw e (edge_after-notify_delete s o subject object g.calls h k)
    | inl n ↦ elim (pair_cases subject object s o) [
      | inr f ↦ rw (n, f) refl
      | inl (b, c) ↦
          rw (n, b, c, same_text_refl subject, same_text_refl object, a subject object, n) refl
    ]
  ]

  delete_row-Agrees :
      (g : Graph)
      → Agrees g
      → Agrees (delete_row (find_if (has_pair subject object) g.rows) subject object g)
  delete_row-Agrees g a s o =
      delete_row-edge g s o a ∙ (rw (a s o) (sym (delete_row-amount subject object g s o)))

  agent_subscription-Agrees :
      (known : Text → Bool) (action : Action) (g : Graph)
      → Agrees g
      → Agrees (kept_or g (agent_subscription known action subject object g))
  unfolding agent_subscription
  agent_subscription-Agrees known follow g a = elim (Bool-cases (known subject && known object)) [
    | inl t ↦ rw t (put_row-Agrees g a)
    | inr f ↦ rw f a
  ]
  agent_subscription-Agrees known unfollow g a = delete_row-Agrees g a

-- Whatever follow and unfollow requests are served, refused ones among them, the edges between
-- users that MeritRank has been told of stay those of the table, weights included, when they were
-- so before and no agent of the requests has an id that starts with U, B or C.
pub subscribe_all-Agrees :
    (known : Text → Bool) (history : List Request) (g : Graph)
    → All ArePlain history
    → Agrees g
    → Agrees (subscribe_all known history g)
unfolding subscribe_all
subscribe_all-Agrees known [] g p a = a
subscribe_all-Agrees known ((action, actor, target) ∷ rest) g p a =
    subscribe_all-Agrees known rest (kept_or g (agent_subscription known action actor target g)) p.1
      (agent_subscription-Agrees actor target p.0.0 p.0.1 known action g a)

-- What one request leaves of a pair's amount.
abbrev pub decided : (Text → Bool) → Text → Text → Request → Option ℕ → Option ℕ
decided known s o (follow, actor, target) amount =
    if (known actor && known target) && (same_text actor s && same_text target o)
    then some 1
    else amount
decided known s o (unfollow, actor, target) amount =
    if same_text actor s && same_text target o then none else amount

-- What the latest request about a pair that was not refused leaves of its amount.
unfoldable pub latest : (Text → Bool) → Text → Text → List Request → Option ℕ → Option ℕ
latest known s o [] amount = amount
latest known s o (request ∷ rest) amount = latest known s o rest (decided known s o request amount)

agent_subscription-amount :
    (known : Text → Bool) (action : Action) (actor target : Text) (g : Graph) (s o : Text)
    → amount_of s o (kept_or g (agent_subscription known action actor target g)).rows
      ≡ decided known s o (action, actor, target) (amount_of s o g.rows)
unfolding agent_subscription
agent_subscription-amount known follow actor target g s o =
    elim (Bool-cases (known actor && known target)) [
      | inl t ↦ rw t (put_row-amount actor target g s o)
      | inr f ↦ rw f refl
    ]
agent_subscription-amount known unfollow actor target g s o = delete_row-amount actor target g s o

-- After any history, the amount of a pair's row is 1 if the latest request about the pair that was
-- not refused was a follow, there is no row if it was an unfollow, and without such a request the
-- row is as before.
pub subscribe_all-latest :
    (known : Text → Bool) (history : List Request) (g : Graph) (s o : Text)
    → amount_of s o (subscribe_all known history g).rows
      ≡ latest known s o history (amount_of s o g.rows)
unfolding subscribe_all latest
subscribe_all-latest known [] g s o = refl
subscribe_all-latest known ((action, actor, target) ∷ rest) g s o =
    subscribe_all-latest known rest (kept_or g (agent_subscription known action actor target g)) s o
    ∙ (rw (agent_subscription-amount known action actor target g s o) refl)
