-- ===== src/Evidence.antt =====
-- Data that the stages pass on: metadata/metadata_models.py and memory/memory_models.py.
use sql_self_healing_agent.Prelude.{ℕ, String, Bool, Option, List}

pub data SourceClause : Type 0 where
  from join insert_target cte unknown : SourceClause

pub record SqlTableRef : Type 0 where
  pub raw_name : String
  pub normalized_name : String
  pub alias : Option String
  pub source_clause : SourceClause

pub record SqlTableExtractionResult : Type 0 where
  pub tables : List SqlTableRef
  pub ctes : List String
  pub parse_success : Bool
  pub parse_error : Option String

pub record ColumnMetadata : Type 0 where
  pub name : String
  pub normalized_name : String
  pub data_type : Option String
  pub comment : Option String
  pub is_partition : Bool

pub data MetadataSource : Type 0 where
  mock real unknown : MetadataSource

pub record TableMetadata : Type 0 where
  pub table_name : String
  pub normalized_table_name : String
  pub exists : Bool
  pub columns : List ColumnMetadata
  pub partition_columns : List ColumnMetadata
  pub owner : Option String
  pub source : MetadataSource
  pub error : Option String

pub record MetadataSnapshot : Type 0 where
  pub extraction_result : SqlTableExtractionResult
  pub tables : List TableMetadata
  pub missing_tables : List String
  pub provider_errors : List String
  pub created_at : String

pub record ExperienceSummary : Type 0 where
  pub experience_id : String
  pub keyword : List String
  pub description : String
  pub matched_by : List String
  pub artifact_ref : Option String

pub record MemoryRetrievalResult : Type 0 where
  pub matched : Bool
  pub matched_experiences : List ExperienceSummary
  pub scanned_count : ℕ
  pub discarded_count : ℕ
  pub artifact_ref : Option String
  pub warnings : List String
