-- ===== src/Types.antt =====
-- studio/src/types.ts, and PartitionMeta of studio/src/utils/schema-inference.ts.
use beast_db.Prelude.{ℕ, Bool, Option, List}
use beast_db.Js.Text.{Text}
use beast_db.Js.Json.{Json}

pub data PayloadFormat : Type 0 where
  json_object json_array token string binary empty : PayloadFormat

pub record Attribute : Type 0 where
  pub key : Text
  pub value : Text
  pub type : Text

pub record UniversalRecord : Type 0 where
  pub key_str : Text
  pub key_hex : Text
  pub prefix : ℕ
  pub prefix_label : Text
  pub user_hash : ℕ
  pub item_hash : ℕ
  pub format : PayloadFormat
  pub byte_size : ℕ
  pub primary_label : Text
  pub secondary_label : Text
  pub cover_url : Option Text
  pub status : Option Json
  pub rating : Option Json
  pub attributes : List Attribute
  pub fields : Option (List (Text × Json))
  pub array_items : Option (List Json)
  pub raw : Text

pub record PartitionConfig : Type 0 where
  pub prefix : ℕ
  pub label : Text
  pub color : Text
  pub description : Option Text
  pub icon : Option Text

pub record PartitionMeta : Type 0 where
  pub label : Text
  pub color : Text
  pub description : Option Text

pub record StorageMetrics : Type 0 where
  pub total_pages : ℕ
  pub disk_size_bytes : ℕ
  pub pool_size : ℕ
  pub cached_pages : ℕ
  pub pinned_pages : ℕ
  pub dirty_pages : ℕ
  pub wal_size_bytes : ℕ
  pub current_lsn : ℕ
  pub active_data_page : ℕ

-- The keys of partitionCounts are numerals of prefixes, and stand by those prefixes.
pub record TelemetryStats : Type 0 where
  pub lsn : ℕ
  pub role : Text
  pub mode : Text
  pub version : Text
  pub partition_counts : Option (List (ℕ × ℕ))
  pub storage : Option StorageMetrics

pub data UserRole : Type 0 where
  admin viewer : UserRole

pub record SessionUser : Type 0 where
  pub username : Text
  pub role : UserRole

pub record SearchResponse : Type 0 where
  pub records : List UniversalRecord
  pub count : ℕ
  pub scanned_count : ℕ
  pub next_key : Option Text
  pub has_more : Bool
  pub prefix : Option ℕ

pub data ViewMode : Type 0 where
  split table grid : ViewMode

pub record ApiTokenItem : Type 0 where
  pub id : Text
  pub name : Text
  pub token_hash : Text
  pub masked_token : Text
  pub role : Text
  pub created_at : Text
