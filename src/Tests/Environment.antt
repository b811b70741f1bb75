-- ===== src/Tests/Environment.antt =====
-- A run of the migrations over two databases in memory.
use globant.Base.{
  ◌≡◌, ◌≢◌, refl, ap, inl, inr, Bool, true, false, Option, none, some, [], ◌∷◌, Text, codes,
  text_eq, text_eq_refl, arith, Bool-cases, if◌then◌else◌,
}
use globant.Errors.{Exc, Result, ok, err, other}
use globant.Action.{Action}
use globant.Catalog.{Catalog, run_operations}
use globant.Migrations.Upgraded.{Unused, our_names}
use globant.Migrations.Environment.{Alembic, run_environment}
use globant.Migrations.Environment.Expected.{
  Versioned, pending, at_head, has_percent, Transactional,
}
use globant.Migrations.Environment.Migrated.{Migrated, run_environment-Migrated}

text_eq_sound : (s t : Text) → text_eq s t ≡ true → s ≡ t
unfolding text_eq
text_eq_sound [] [] h = refl
text_eq_sound (a ∷ s) [] h = absurd (cc)
text_eq_sound [] (b ∷ t) h = absurd (cc)
text_eq_sound (a ∷ s) (b ∷ t) h = ground (arith, text_eq_sound s t)

abbrev url_eq : Option Text → Option Text → Bool
url_eq none none = true
url_eq none (some b) = false
url_eq (some a) none = false
url_eq (some a) (some b) = text_eq a b

url_eq_refl : (a : Option Text) → url_eq a a ≡ true
url_eq_refl none = refl
url_eq_refl (some a) = text_eq_refl a

url_eq_sound : (a b : Option Text) → url_eq a b ≡ true → a ≡ b
url_eq_sound none none h = refl
url_eq_sound none (some b) h = absurd (cc)
url_eq_sound (some a) none h = absurd (cc)
url_eq_sound (some a) (some b) h = ap some (text_eq_sound a b h)

-- The option `sqlalchemy.url`, the databases, and the transaction.
record Run : Type 0 where
  option : Option Text
  db : Option Text → Versioned
  current : Versioned
  on : Option Text

abbrev migrate : Option Versioned → Run → Result (Unit {0}) × Run
migrate none s = (err (other (codes "ProgrammingError")), s)
migrate (some c) s = (ok tt, record s { current = c })

abbrev stored : Run → Option Text → Versioned
stored s u = if url_eq u s.on then s.current else s.db u

abbrev upgraded_db : Versioned → Option Versioned
upgraded_db d = at_head (run_operations (pending d.version) d.catalog)

abbrev interpolation_error : Exc
interpolation_error = other (codes "InterpolationSyntaxError")

-- No interpolation is valid here.
abbrev set_option : Text → Action Run (Unit {0})
set_option value s =
    if has_percent value
    then (err interpolation_error, s)
    else (ok tt, record s { option = some value })

abbrev get_option : Option Text → Action Run (Option Text)
get_option none s = (ok none, s)
get_option (some value) s =
    (if has_percent value then err interpolation_error else ok (some value), s)

abbrev in_memory : Alembic
in_memory = record {
  State = Run;
  Connection = Option Text;
  set_main_option = λ key value s. set_option value s;
  get_main_option = λ key s. get_option s.option s;
  is_offline_mode = λ s. false;
  connect = λ url s. (ok url, s);
  close = λ c s. s;
  configure_url = λ url s. (ok tt, s);
  configure_connection = λ c s. (ok tt, record s { on = c });
  begin = λ s. (ok tt, record s { current = s.db s.on });
  commit = λ s. (ok tt, record s { db = stored s });
  rollback = λ s. (ok tt, s);
  run_migrations = λ s. migrate (upgraded_db s.current) s;
}

migrate-made :
    (found : Option Versioned) (s : Run)
    → upgraded_db s.current ≡ found
    → let (r, s') = migrate found s in
      ((u : Option Text) → s'.db u ≡ s.db u)
      × (r ≡ ok tt → (s'.on ≡ s.on) × (upgraded_db s.current ≡ some s'.current))
migrate-made none s e = (λ u. refl, λ h. absurd (cc))
migrate-made (some c) s e = (λ u. refl, λ h. (refl, e))

get_option-Same :
    (option : Option Text) (s : Run) (u : Option Text) → (get_option option s).1.db u ≡ s.db u
get_option-Same none s u = refl
get_option-Same (some value) s u = refl

set_option-read :
    (value : Text) (s : Run)
    → let (r, s') = set_option value s in
      ((u : Option Text) → s'.db u ≡ s.db u)
      × (has_percent value ≡ false → (get_option s'.option s').0 ≡ ok (some value))
set_option-read value s = elim (Bool-cases (has_percent value)) [
  | inl e ↦ rw e (λ u. refl, λ h. absurd (cc))
  | inr e ↦ rw e (λ u. refl, λ h. rw e refl)
]

stored-elsewhere : (s : Run) (u : Option Text) → u ≢ s.on → stored s u ≡ s.db u
stored-elsewhere s u apart = elim (Bool-cases (url_eq u s.on)) [
  | inl e ↦ absurd (apart (url_eq_sound u s.on e))
  | inr e ↦ rw e refl
]

in_memory-Transactional : Transactional in_memory
in_memory-Transactional = record {
  committed = λ u s. s.db u;
  current = λ s. s.current;
  on = λ s. s.on;
  url_of = λ c. c;
  set_main_option_lem = λ key value s. set_option-read value s;
  get_main_option_lem = λ key s u. get_option-Same s.option s u;
  connect_lem = λ url s. (λ u. refl, λ c h. cc);
  configure_connection_lem = λ c s. (λ u. refl, λ h. refl);
  begin_lem = λ s. (λ u. refl, λ h. (refl, refl));
  run_migrations_lem = λ s. migrate-made _ s refl;
  commit_lem = λ s. (λ h. rw (url_eq_refl s.on) refl, λ u apart. stored-elsewhere s u (apart refl));
  rollback_lem = λ s u. refl;
  close_lem = λ c s u. refl;
}

abbrev empty_catalog : Catalog
empty_catalog = record { types = []; tables = [] }

abbrev empty_db : Versioned
empty_db = record { catalog = empty_catalog; version = 0 }

-- The file of the configuration names another database.
abbrev start : Run
start = record {
  option = some (codes "driver://localhost/dbname");
  db = λ u. empty_db;
  current = empty_db;
  on = none;
}

abbrev hiring_url : Text
hiring_url = codes "postgresql://db/hiring"

none-Unused : Unused our_names []
none-Unused = (refl, (refl, (refl, (refl, (refl, (refl, (refl, (refl, tt))))))))

run_environment-Migrated_example :
    let (out, s') = run_environment in_memory (some hiring_url) start in
    Migrated in_memory in_memory-Transactional (some hiring_url) start out s'
unfolding in_memory-Transactional
run_environment-Migrated_example =
    run_environment-Migrated in_memory in_memory-Transactional b'p' (codes "ostgresql://db/hiring")
      start refl refl refl none-Unused refl
