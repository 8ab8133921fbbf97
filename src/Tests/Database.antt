-- ===== src/Tests/Database.antt =====
-- The splitter and the start-up on concrete texts (meritmolt/database.py).
use meritmolt.Prelude.{ℕ, zero, suc, ◌≡◌, refl, Bool, false, none, List, [], ◌∷◌, leb}
use meritmolt.Text.{
  Text, codes, strip, strip_left, strip_right, is_blank, is_space, has_prefix, drop_prefix,
}
use meritmolt.Database.Splitter.{split_sql_statements, split_from, turn, plain_turn, tag_rest}
use meritmolt.Database.Splitter.Pieces.{join_pieces, statements_of, split-pieces}
use meritmolt.Database.Splitter.Roundtrip.{split-join, Plain}
use meritmolt.Database.Startup.{
  Raised, Execution, dbapi_error, failed, meritrank_init_with_retry, is_meritrank_retryable,
  contains,
}
use meritmolt.Database.Startup.Retries.{init_aborted, Aborts}

-- A semicolon inside a dollar-quoted body ends no statement.
split_dollar :
    split_sql_statements (λ c. leb 97 c) (codes "do $f$ a; b $f$; select 1;")
    ≡ codes "do $f$ a; b $f$" ∷ codes "select 1" ∷ []
unfolding split_sql_statements split_from turn plain_turn tag_rest strip strip_left strip_right
    is_blank is_space has_prefix drop_prefix
split_dollar = refl

split-pieces_example :
    (pieces : List Text) × (join_pieces pieces ≡ codes "a ';' ; b")
    × (split_sql_statements (λ c. leb 97 c) (codes "a ';' ; b") ≡ statements_of pieces)
split-pieces_example = split-pieces (λ c. leb 97 c) (codes "a ';' ; b")

select_Plain : (Plain (codes "select a"))
unfolding strip strip_left strip_right is_blank is_space
select_Plain = ((refl, (refl, (refl, (refl, (refl, (refl, (refl, (refl, tt)))))))), refl, refl)

split-join_example :
    split_sql_statements (λ c. leb 97 c) (join_pieces (codes "select a" ∷ codes "select a" ∷ []))
    ≡ codes "select a" ∷ codes "select a" ∷ []
split-join_example =
    split-join (λ c. leb 97 c) (codes "select a" ∷ codes "select a" ∷ [])
      (select_Plain, (select_Plain, tt))

abbrev not_ready : Raised
not_ready = record { message = codes "Try again"; cause = none }

abbrev aborted : Raised
aborted = record { message = codes "current transaction is aborted"; cause = none }

not_ready_retryable : is_meritrank_retryable not_ready ≡ Bool.true
unfolding is_meritrank_retryable contains has_prefix
not_ready_retryable = refl

aborted_final : is_meritrank_retryable aborted ≡ false
unfolding is_meritrank_retryable contains has_prefix
aborted_final = refl

-- One transaction of PostgreSQL.
abbrev one_transaction : ℕ → Execution
one_transaction zero = dbapi_error not_ready
one_transaction (suc k) = dbapi_error aborted

one_transaction-Aborts : Aborts one_transaction
one_transaction-Aborts k asks = (aborted, refl, aborted_final)

init_aborted_example :
    (e : Raised) × (meritrank_init_with_retry one_transaction ≡ (failed e, 1 ∷ []))
init_aborted_example = init_aborted one_transaction one_transaction-Aborts not_ready_retryable
