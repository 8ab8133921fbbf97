-- ===== src/Entities/Enrichment.antt =====
-- What an upsert may change (textlake/upsert.py).
use meritmolt.Prelude.{
  ℕ, ◌≡◌, refl, sym, subst, inl, inr, String, Bool, true, false, not, ◌&&◌, Option, none, some,
  List, [], ◌∷◌, find_if, str_eq, if◌then◌else◌, Bool-cases, eq_iff, All, find_if-update_if,
  find_if-append,
}
use meritmolt.Errors.{ok, err, unhandled}
use meritmolt.Json.{Json}
use meritmolt.Entities.{
  Cells, Row, Table, Entity, is_member, coalesce, raw_json_of, is_special, set_cell, enrich,
  has_row_id, all_set, name_taken, written, write_row, enrichment_upsert, Upsert, kept_or,
  upsert_all,
}

-- A cell that is not NULL.
abbrev pub IsKnown : Option Json → Type 0
IsKnown none = ⊥
IsKnown (some v) = Unit {0}

coalesce-IsKnown : (a b : Option Json) → IsKnown b → IsKnown (coalesce a b)
coalesce-IsKnown none b h = h
coalesce-IsKnown (some v) b h = tt

if-IsKnown : (b : Bool) (x y : Option Json) → IsKnown x → IsKnown y → IsKnown (if b then x else y)
if-IsKnown true x y h k = h
if-IsKnown false x y h k = k

raw_json_of-IsKnown :
    (b : Bool) (new old : Option Json) → IsKnown new → IsKnown (raw_json_of b new old)
raw_json_of-IsKnown true new old h = h
raw_json_of-IsKnown false new none h = h
raw_json_of-IsKnown false new (some v) h = tt

set_cell-IsKnown :
    (entity : Entity) (auth : Bool) (new old : Cells) (c : String)
    → IsKnown (new "raw_json")
    → IsKnown (old c)
    → IsKnown (set_cell entity auth new old c)
unfolding set_cell
set_cell-IsKnown entity auth new old c raw h = by_name (str_eq c "raw_json") refl
  where
    by_name :
        (b : Bool)
        → str_eq c "raw_json" ≡ b
        → IsKnown (
            if b
            then raw_json_of auth (new c) (old c)
            else if is_member c entity.enrichment && not (is_special c)
            then coalesce (new c) (old c)
            else old c)
    by_name true e =
        raw_json_of-IsKnown auth (new c) (old c)
          (subst (λ d. IsKnown (new d)) (sym ((eq_iff c "raw_json").0 e)) raw)
    by_name false e =
        if-IsKnown (is_member c entity.enrichment && not (is_special c)) _ _
          (coalesce-IsKnown (new c) (old c) h) h

-- The row of an id.
abbrev pub row_of : String → Table → Option Row
row_of i table = find_if (has_row_id i) table

-- The row of `j` has a value in the column `c`.
abbrev pub HasValue : String → String → Table → Type 0
HasValue j c table = (row : Row) × (row_of j table ≡ some row) × IsKnown (row.cells c)

module _ (entity : Entity) (auth : Bool) (now : ℕ) (i : String) (new : Cells) where
  write_row-HasValue :
      (old : Option Row) (table : Table) (j c : String)
      → IsKnown (new "raw_json")
      → HasValue j c table
      → HasValue j c (write_row entity auth now i new old table)
  unfolding enrich
  write_row-HasValue none table j c raw (row, found, known) =
      (row, find_if-append (has_row_id j) table _ row found, known)
  write_row-HasValue (some old) table j c raw (row, found, known) =
      elim (Bool-cases (has_row_id i row)) [
        | inl t ↦ (
          enrich entity auth now new row,
          rw
              (
                find_if-update_if (has_row_id j) (has_row_id i) (enrich entity auth now new) table
                    (λ x. refl),
                found,
                t,
              )
              refl,
          set_cell-IsKnown entity auth new row.cells c raw known,
        )
        | inr f ↦ (
          row,
          rw
              (
                find_if-update_if (has_row_id j) (has_row_id i) (enrich entity auth now new) table
                    (λ x. refl),
                found,
                f,
              )
              refl,
          known,
        )
      ]

upsert-HasValue :
    (same_name : Json → Json → Bool) (entity : Entity) (u : Upsert) (table : Table) (j c : String)
    → IsKnown (u.cells "raw_json")
    → HasValue j c table
    → HasValue j c (
        kept_or table
          (enrichment_upsert same_name entity u.is_authoritative u.now u.id u.cells table))
unfolding enrichment_upsert
upsert-HasValue same_name entity u table j c raw h = by_check (
    all_set entity.required u.cells
    && not (
        name_taken same_name entity u.id
          (written entity u.is_authoritative u.cells (find_if (has_row_id u.id) table)) table))
  where
    by_check :
        (b : Bool)
        → HasValue j c (
            kept_or table (
              if b
              then ok (
                  write_row entity u.is_authoritative u.now u.id u.cells
                    (find_if (has_row_id u.id) table)
                    table)
              else err unhandled))
    by_check true =
        write_row-HasValue entity u.is_authoritative u.now u.id u.cells
          (find_if (has_row_id u.id) table) table j c raw h
    by_check false = h

-- Upserts enrich only: in every history of upserts, authoritative or not, of payloads with their
-- raw_json, a column that once has a value for an id has a value for it at the end.
pub upsert_all-HasValue :
    (same_name : Json → Json → Bool) (entity : Entity) (history : List Upsert) (table : Table)
    (j c : String)
    → All (λ (u : Upsert). IsKnown (u.cells "raw_json")) history
    → HasValue j c table
    → HasValue j c (upsert_all same_name entity history table)
unfolding upsert_all
upsert_all-HasValue same_name entity [] table j c raw h = h
upsert_all-HasValue same_name entity (u ∷ us) table j c (raw, rest) h =
    upsert_all-HasValue same_name entity us _ j c rest
      (upsert-HasValue same_name entity u table j c raw h)
