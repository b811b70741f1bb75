-- ===== src/Catalog.antt =====
-- The catalog of a database, as far as the migrations reach it: its enum types and its tables, and
-- what is documented of PostgreSQL for the operations of Alembic.
use globant.Base.{
  Bool, true, false, ◌||◌, Option, none, some, List, [], ◌∷◌, ◌++◌, Text, text_eq, if◌then◌else◌,
}

pub data ColumnType : Type 0 where
  uuid jsonb timestamp_with_time_zone integer string : ColumnType
  -- A type that is declared under a name.
  enum : Text → ColumnType

-- `server_default_now` is `server_default=now()`.
pub record Column : Type 0 where
  pub name : Text
  pub type : ColumnType
  pub nullable : Bool
  pub server_default_now : Bool
  pub comment : Text

-- A foreign key is a column and the table whose `id` it refers to; an index is a name and a column.
pub record Table : Type 0 where
  pub name : Text
  pub columns : List Column
  pub primary_key : Text
  pub foreign_keys : List (Text × Text)
  pub indexes : List (Text × Text)
  pub comment : Text

-- A table comes with the enum types that its columns declare.
pub data Operation : Type 0 where
  create_table : List (Text × List Text) → Table → Operation
  create_index : Text → Text → Text → Operation
  drop_index : Text → Text → Operation
  drop_table : Text → Operation
  -- `ALTER TYPE … ADD VALUE IF NOT EXISTS …`
  add_value : Text → Text → Operation

-- What a database has: its enum types with their values, and its tables.
pub record Catalog : Type 0 where
  pub types : List (Text × List Text)
  pub tables : List Table

abbrev pub has_name : Text → List (Text × Text) → Bool
has_name n [] = false
has_name n ((k, _) ∷ d) = text_eq k n || has_name n d

abbrev pub has_text : Text → List Text → Bool
has_text n [] = false
has_text n (t ∷ ts) = text_eq t n || has_text n ts

abbrev pub has_type : Text → List (Text × List Text) → Bool
has_type n [] = false
has_type n ((k, _) ∷ types) = text_eq k n || has_type n types

abbrev pub has_table : Text → List Table → Bool
has_table n [] = false
has_table n (t ∷ ts) = text_eq t.name n || has_table n ts

-- Tables and indexes share their names.
abbrev pub has_relation : Text → List Table → Bool
has_relation n [] = false
has_relation n (t ∷ ts) = text_eq t.name n || has_name n t.indexes || has_relation n ts

-- The tables that the foreign keys refer to are there.
abbrev pub all_there : List (Text × Text) → List Table → Bool
all_there [] ts = true
all_there ((_, table) ∷ keys) ts = if has_table table ts then all_there keys ts else false

abbrev pub refers_to : Text → List (Text × Text) → Bool
refers_to n [] = false
refers_to n ((_, table) ∷ keys) = text_eq table n || refers_to n keys

abbrev pub is_referred : Text → List Table → Bool
is_referred n [] = false
is_referred n (t ∷ ts) = refers_to n t.foreign_keys || is_referred n ts

-- `CREATE TYPE`
abbrev pub create_types :
    List (Text × List Text) → List (Text × List Text) → Option (List (Text × List Text))
create_types [] types = some types
create_types ((n, values) ∷ more) types =
    let rest = create_types more ((n, values) ∷ types) in if has_type n types then none else rest

-- `f` at the table of that name.
abbrev pub alter : Text → (Table → Table) → List Table → List Table
alter n f [] = []
alter n f (t ∷ ts) = let rest = alter n f ts in if text_eq t.name n then f t ∷ ts else t ∷ rest

abbrev pub without_index : Text → List (Text × Text) → List (Text × Text)
without_index n [] = []
without_index n ((k, column) ∷ indexes) =
    let rest = without_index n indexes in if text_eq k n then indexes else (k, column) ∷ rest

abbrev pub without_table : Text → List Table → List Table
without_table n [] = []
without_table n (t ∷ ts) =
    let rest = without_table n ts in if text_eq t.name n then ts else t ∷ rest

abbrev pub with_value : Text → Text → List (Text × List Text) → List (Text × List Text)
with_value n v [] = []
with_value n v ((k, values) ∷ types) =
    let rest = with_value n v types in
    if text_eq k n
    then (k, if has_text v values then values else values ++ v ∷ []) ∷ types
    else (k, values) ∷ rest

-- A table whose types have been created.
abbrev pub add_table : Table → List Table → Option (List (Text × List Text)) → Option Catalog
add_table t ts none = none
add_table t ts (some types) =
    if has_relation t.name ts
    then none
    else if all_there t.foreign_keys ts
    then some (record { types = types; tables = t ∷ ts })
    else none

-- What is documented of PostgreSQL for an operation; none where it refuses. A table that another one refers to
-- cannot be dropped, and a type outlives the tables that use it.
unfoldable pub run_operation : Operation → Catalog → Option Catalog
unfolding text_eq
run_operation (create_table types t) c = add_table t c.tables (create_types types c.types)
run_operation (create_index n table column) c =
    if has_relation n c.tables
    then none
    else if has_table table c.tables
    then some (record c {
      tables = alter table (λ t. record t { indexes = (n, column) ∷ t.indexes }) c.tables;
    })
    else none
run_operation (drop_index n table) c =
    if has_relation n c.tables
    then some (record c {
      tables = alter table (λ t. record t { indexes = without_index n t.indexes }) c.tables;
    })
    else none
run_operation (drop_table n) c =
    if has_table n c.tables
    then if is_referred n (without_table n c.tables)
      then none
      else some (record c { tables = without_table n c.tables })
    else none
run_operation (add_value n v) c =
    if has_type n c.types then some (record c { types = with_value n v c.types }) else none

unfoldable pub run_operations : List Operation → Catalog → Option Catalog
unfolding run_operation
run_operations [] c = some c
run_operations (op ∷ ops) c = elim (run_operation op c) [
  | none ↦ none
  | some c' ↦ run_operations ops c'
]

abbrev pub column : Text → ColumnType → Bool → Bool → Text → Column
column name type nullable server_default_now comment = record {
  name = name;
  type = type;
  nullable = nullable;
  server_default_now = server_default_now;
  comment = comment;
}
