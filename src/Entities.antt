-- ===== src/Entities.antt =====
-- The enrichment-only upserts of agents, submolts, posts and comments (textlake/upsert.py, with the
-- constraints of textlake/models/entities.py). A row is its id, its cells by column name (none is
-- NULL) and its times; the columns first_seen_at and last_seen_at are never NULL.
pub mod Enrichment
use meritmolt.Prelude.{
  ℕ, String, Bool, true, false, not, ◌&&◌, ◌||◌, Option, none, some, List, [], ◌∷◌, ◌++◌, find_if,
  update_if, is_none, str_eq, if◌then◌else◌,
}
use meritmolt.Errors.{Result, ok, err, unhandled}
use meritmolt.Json.{Json}

abbrev pub Cells : Type 0
Cells = String → Option Json

pub record Row : Type 0 where
  pub id : String
  pub cells : Cells
  pub first_seen_at : ℕ
  pub last_seen_at : ℕ

abbrev pub Table : Type 0
Table = List Row

-- A table's declaration: the columns to enrich, those that are NOT NULL, and whether `name` is
-- UNIQUE.
pub record Entity : Type 0 where
  pub enrichment : List String
  pub required : List String
  pub unique_name : Bool

unfoldable pub mb_agent : Entity
mb_agent = record {
  enrichment =
      "name" ∷ "description" ∷ "created_at_src" ∷ "karma" ∷ "is_claimed" ∷ "is_human" ∷ "raw_json"
      ∷ "first_seen_at" ∷ "last_seen_at" ∷ [];
  required = "name" ∷ "raw_json" ∷ [];
  unique_name = true;
}

unfoldable pub mb_submolt : Entity
mb_submolt = record {
  enrichment =
      "name" ∷ "display_name" ∷ "description" ∷ "created_at_src" ∷ "raw_json" ∷ "first_seen_at"
      ∷ "last_seen_at" ∷ [];
  required = "name" ∷ "raw_json" ∷ [];
  unique_name = true;
}

unfoldable pub mb_post : Entity
mb_post = record {
  enrichment =
      "submolt_name" ∷ "submolt_id" ∷ "author_name" ∷ "author_id" ∷ "title" ∷ "content" ∷ "url"
      ∷ "created_at_src" ∷ "updated_at_src" ∷ "upvotes" ∷ "downvotes" ∷ "comment_count" ∷ "raw_json"
      ∷ "first_seen_at" ∷ "last_seen_at" ∷ [];
  required = "author_id" ∷ "raw_json" ∷ [];
  unique_name = false;
}

unfoldable pub mb_comment : Entity
mb_comment = record {
  enrichment =
      "post_id" ∷ "parent_id" ∷ "author_name" ∷ "author_id" ∷ "content" ∷ "created_at_src"
      ∷ "upvotes" ∷ "downvotes" ∷ "raw_json" ∷ "first_seen_at" ∷ "last_seen_at" ∷ [];
  required = "post_id" ∷ "author_id" ∷ "content" ∷ "raw_json" ∷ [];
  unique_name = false;
}

abbrev pub is_member : String → List String → Bool
is_member c [] = false
is_member c (d ∷ ds) = str_eq c d || is_member c ds

abbrev pub coalesce : Option Json → Option Json → Option Json
coalesce none old = old
coalesce (some v) old = some v

-- `case((raw_json IS NULL, excluded.raw_json), else_=raw_json)`, or the new one.
abbrev pub raw_json_of : Bool → Option Json → Option Json → Option Json
raw_json_of true new old = new
raw_json_of false new old = coalesce old new

-- The loop over the enrichment columns skips these.
abbrev pub is_special : String → Bool
is_special c = str_eq c "first_seen_at" || (str_eq c "last_seen_at" || str_eq c "raw_json")

-- The SET clause, for one cell.
unfoldable pub set_cell : Entity → Bool → Cells → Cells → Cells
set_cell entity is_authoritative new old c =
    if str_eq c "raw_json"
    then raw_json_of is_authoritative (new c) (old c)
    else if is_member c entity.enrichment && not (is_special c)
    then coalesce (new c) (old c)
    else old c

-- The row after DO UPDATE; first_seen_at is never NULL, so COALESCE keeps it.
unfoldable pub enrich : Entity → Bool → ℕ → Cells → Row → Row
enrich entity is_authoritative now new row = record row {
  cells = set_cell entity is_authoritative new row.cells;
  last_seen_at = now;
}

abbrev pub has_row_id : String → Row → Bool
has_row_id i row = str_eq row.id i

abbrev pub all_set : List String → Cells → Bool
all_set [] cells = true
all_set (c ∷ cs) cells = not (is_none (cells c)) && all_set cs cells

-- The cells that the statement would write, from the row of the id, where there is one.
abbrev pub written : Entity → Bool → Cells → Option Row → Cells
written entity is_authoritative new none = new
written entity is_authoritative new (some row) = set_cell entity is_authoritative new row.cells

abbrev pub write_row : Entity → Bool → ℕ → String → Cells → Option Row → Table → Table
write_row entity is_authoritative now i new none table =
    table ++ record { id = i; cells = new; first_seen_at = now; last_seen_at = now } ∷ []
write_row entity is_authoritative now i new (some row) table =
    update_if (has_row_id i) (enrich entity is_authoritative now new) table

module _ (same_name : Json → Json → Bool) where
  abbrev pub same_cell : Option Json → Option Json → Bool
  same_cell none o = false
  same_cell (some a) none = false
  same_cell (some a) (some b) = same_name a b

  -- Another row has the name: a violation of UNIQUE (name), where the table has it. Names are
  -- CITEXT; `same_name` is its equality.
  unfoldable pub name_taken : Entity → String → Cells → Table → Bool
  name_taken entity i cells table =
      entity.unique_name
      && not (
          is_none (
            find_if (λ (r : Row). not (has_row_id i r) && same_cell (r.cells "name") (cells "name"))
              table))

  -- _enrichment_upsert: INSERT ... ON CONFLICT (id) DO UPDATE. The proposed row must keep NOT NULL,
  -- also where it is only used to update.
  unfoldable pub enrichment_upsert : Entity → Bool → ℕ → String → Cells → Table → Result Table
  enrichment_upsert entity is_authoritative now i new table =
      let old = find_if (has_row_id i) table in
      if all_set entity.required new
        && not (name_taken entity i (written entity is_authoritative new old) table)
      then ok (write_row entity is_authoritative now i new old table)
      else err unhandled

  -- The four upserts.
  unfoldable pub upsert_agent : Bool → ℕ → String → Cells → Table → Result Table
  upsert_agent is_authoritative now i new table =
      enrichment_upsert mb_agent is_authoritative now i new table

  unfoldable pub upsert_submolt : Bool → ℕ → String → Cells → Table → Result Table
  upsert_submolt is_authoritative now i new table =
      enrichment_upsert mb_submolt is_authoritative now i new table

  unfoldable pub upsert_post : Bool → ℕ → String → Cells → Table → Result Table
  upsert_post is_authoritative now i new table =
      enrichment_upsert mb_post is_authoritative now i new table

  unfoldable pub upsert_comment : Bool → ℕ → String → Cells → Table → Result Table
  upsert_comment is_authoritative now i new table =
      enrichment_upsert mb_comment is_authoritative now i new table

-- An upsert of a history: its entity is the table's.
pub record Upsert : Type 0 where
  pub is_authoritative : Bool
  pub now : ℕ
  pub id : String
  pub cells : Cells

abbrev pub kept_or : Table → Result Table → Table
kept_or table (ok after) = after
kept_or table (err e) = table

-- A history of upserts of one table; one that raises changes nothing.
unfoldable pub upsert_all : (Json → Json → Bool) → Entity → List Upsert → Table → Table
upsert_all same_name entity [] table = table
upsert_all same_name entity (u ∷ us) table =
    upsert_all same_name entity us (
      kept_or table
        (enrichment_upsert same_name entity u.is_authoritative u.now u.id u.cells table))
