-- ===== src/Domain/Insights.antt =====
-- Insights, which have no version. A score is a float64, of which only its order is used.
use intermute.Base.{
  ℕ, Bool, not, ◌&&◌, ◌||◌, Option, List, map, filter, if◌then◌else◌, Text, text_eq, Result,
}
use intermute.Stamp.{stamp_lt}
use intermute.Messages.{or_now}
use intermute.Domain.{
  DomainError, Columns, any_entity, get_entity, create_entity, delete_entity, ordered, wanted,
  or_else,
}

pub record Insight (Score : Type 0) : Type 0 where
  pub id : Text
  pub project : Text
  pub spec_id : Text
  pub source : Text
  pub category : Text
  pub title : Text
  pub body : Text
  pub url : Text
  pub score : Score
  pub created_at : ℕ

module _ {Score : Type 0} (higher : Score → Score → Bool) where
  -- The generic operations that read no version are shared.
  unfoldable pub insight_columns : Columns (Insight Score)
  insight_columns = record {
    project = λ (i : Insight Score). i.project;
    id = λ (i : Insight Score). i.id;
    version = λ i. 0;
    touch = λ now i. i;
    assign = λ new r. r;
  }

  unfoldable pub fresh_insight : Text → ℕ → Insight Score → Insight Score
  fresh_insight new_id now i = record i {
    id = or_else new_id i.id;
    created_at = or_now now i.created_at;
  }

  unfoldable pub create_insight :
      Text
      → ℕ
      → Insight Score
      → List (Insight Score)
      → Result DomainError (Insight Score × List (Insight Score))
  unfolding insight_columns create_entity any_entity fresh_insight
  create_insight new_id now i rows = create_entity insight_columns (fresh_insight new_id now i) rows

  unfoldable pub get_insight : Text → Text → List (Insight Score) → Option (Insight Score)
  unfolding insight_columns get_entity
  get_insight = get_entity insight_columns

  -- `ORDER BY score DESC, created_at DESC`
  by_score : Insight Score → Insight Score → Bool
  by_score e f =
      higher e.score f.score || (not (higher f.score e.score) && stamp_lt f.created_at e.created_at)

  unfoldable pub list_insights : Text → Text → Text → List (Insight Score) → List (Insight Score)
  unfolding ordered by_score
  list_insights project spec_id category rows = ordered by_score (
      filter
        (λ (i : Insight Score).
          wanted project i.project && (wanted spec_id i.spec_id && wanted category i.category))
        rows)

  unfoldable pub link_insight_to_spec :
      Text → Text → Text → List (Insight Score) → List (Insight Score)
  link_insight_to_spec project insight_id spec_id rows =
      map
        (λ (i : Insight Score).
          if text_eq i.project project && text_eq i.id insight_id
          then record i { spec_id = spec_id }
          else i)
        rows

  unfoldable pub delete_insight : Text → Text → List (Insight Score) → List (Insight Score)
  unfolding insight_columns delete_entity
  delete_insight = delete_entity insight_columns
