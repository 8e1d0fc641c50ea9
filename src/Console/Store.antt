-- ===== src/Console/Store.antt =====
-- console/store.py: the console's database. A call is one transaction; the hashes, the drawn tokens and
-- salts and the readings of the clock, in microseconds, are arguments. JSON values are kept as texts.
pub mod Sessions
pub mod Lockout
pub mod Events
use ai_security_gateway.Base.{
  ℕ, suc, ◌+◌, ◌*◌, String, Bool, true, false, ◌&&◌, ◌||◌, not, Option, none, some, List, [], ◌∷◌,
  ◌++◌, leb, ltb, is_set, str_eq, if◌then◌else◌,
}
use ai_security_gateway.Base.Dict
use ai_security_gateway.Base.Dict.{Dict}
use ai_security_gateway.Base.Result.{Result, ok, err}

pub record Hashes : Type 0 where
  pub password_hash : String → String → String
  pub sha256_hex : String → String

pub record Account : Type 0 where
  pub salt : String
  pub password_hash : String
  pub changed : Bool

pub record SessionRow : Type 0 where
  pub digest : String
  pub expires : ℕ
  pub principal : Option String

pub record Attempts : Type 0 where
  pub failures : ℕ
  pub until : ℕ

pub record EventRow : Type 0 where
  pub id : ℕ
  pub payload : String

pub record AuditRow : Type 0 where
  pub id : ℕ
  pub ts : ℕ
  pub actor : String
  pub event : String
  pub detail : String

-- The tables of the administrator's account, the sessions, the failed sign-ins, the settings, the
-- events and the audit, the last row first, with the next numbers of the last two.
pub record Database : Type 0 where
  pub account : Account
  pub sessions : List SessionRow
  pub attempts : Dict Attempts
  pub settings : Dict String
  pub events : List EventRow
  pub next_event : ℕ
  pub audit_rows : List AuditRow
  pub next_audit : ℕ

abbrev pub second : ℕ
second = 1000000

-- `sqlite3.IntegrityError`, which rolls the transaction back.
pub data StoreError : Type 0 where
  integrity_error : StoreError

-- The account that `Store` creates in an empty directory.
unfoldable pub new_account : Hashes → String → String → Account
new_account h password salt = record {
  salt = salt;
  password_hash = h.password_hash password salt;
  changed = not (str_eq password "1234");
}

unfoldable pub new_database : Hashes → String → String → Database
new_database h password salt = record {
  account = new_account h password salt;
  sessions = [];
  attempts = [];
  settings = [];
  events = [];
  next_event = 1;
  audit_rows = [];
  next_audit = 1;
}

-- `check_password`
unfoldable pub check_password : Hashes → String → Database → Bool
check_password h password db =
    str_eq (h.password_hash password db.account.salt) db.account.password_hash

abbrev pub changed : Database → Bool
changed db = db.account.changed

abbrev pub admin : String
admin = "{\"username\": \"admin\", \"role\": \"admin\", \"authentication\": \"local\"}"

-- `DELETE FROM sessions WHERE expires < ?`
unfoldable pub delete_expired : ℕ → List SessionRow → List SessionRow
delete_expired now [] = []
delete_expired now (r ∷ rs) =
    if ltb r.expires now then delete_expired now rs else r ∷ delete_expired now rs

unfoldable pub has_session : String → List SessionRow → Bool
has_session d [] = false
has_session d (r ∷ rs) = str_eq r.digest d || has_session d rs

abbrev pub min : ℕ → ℕ → ℕ
min a b = if ltb b a then b else a

-- `principal or {...}`: an empty dict is replaced like an absent one.
unfoldable pub principal_or_admin : Option String → String
principal_or_admin none = admin
principal_or_admin (some p) = if str_eq p "{}" then admin else p

abbrev pub session_row : Hashes → String → Option String → ℕ → ℕ → SessionRow
session_row h token principal ttl now = record {
  digest = h.sha256_hex token;
  expires = now + min ttl 28800 * second;
  principal = some (principal_or_admin principal);
}

-- `create_session`, which reads the clock twice.
unfoldable pub create_session :
    Hashes → Option String → ℕ → String → ℕ → ℕ → Database → Result StoreError String × Database
create_session h principal ttl token now later db =
    let rows = delete_expired now db.sessions in
    if has_session (h.sha256_hex token) rows
    then (err integrity_error, db)
    else (ok token, record db { sessions = session_row h token principal ttl later ∷ rows })

unfoldable pub find_session : String → ℕ → List SessionRow → Option (Option String)
find_session d now [] = none
find_session d now (r ∷ rs) =
    if str_eq r.digest d && ltb now r.expires then some r.principal else find_session d now rs

abbrev nonempty : Option (Option String) → Option String
nonempty none = none
nonempty (some none) = none
nonempty (some (some p)) = if is_set p then some p else none

-- `principal`
unfoldable pub principal : Hashes → String → ℕ → Database → Option String
principal h token now db =
    if is_set token then nonempty (find_session (h.sha256_hex token) now db.sessions) else none

unfoldable pub delete_session : String → List SessionRow → List SessionRow
delete_session d [] = []
delete_session d (r ∷ rs) =
    if str_eq r.digest d then delete_session d rs else r ∷ delete_session d rs

-- `logout`
unfoldable pub logout : Hashes → String → Database → Database
logout h token db = record db { sessions = delete_session (h.sha256_hex token) db.sessions }

-- `audit`
unfoldable pub audit : String → String → String → ℕ → Database → Database
audit event detail actor now db = record db {
  audit_rows =
      record { id = db.next_audit; ts = now; actor = actor; event = event; detail = detail }
      ∷ db.audit_rows;
  next_audit = suc db.next_audit;
}

-- `change_password`: the transaction, and the audit after it.
unfoldable pub change_password : Hashes → String → String → String → ℕ → Database → Bool × Database
change_password h current new salt now db =
    if check_password h current db
    then (
      true,
      audit "account.password_changed" "All sessions revoked" "system" now (record db {
        account = record { salt = salt; password_hash = h.password_hash new salt; changed = true };
        sessions = [];
      }),
    )
    else (false, db)

unfoldable pub delete_attempts : String → Dict Attempts → Dict Attempts
delete_attempts k [] = []
delete_attempts k ((j, a) ∷ d) =
    if str_eq j k then delete_attempts k d else (j, a) ∷ delete_attempts k d

abbrev pub is_locked : Option Attempts → ℕ → Bool
is_locked none now = false
is_locked (some a) now = leb 5 a.failures && ltb now a.until

abbrev pub failures_with : Option Attempts → ℕ → ℕ
failures_with none now = 1
failures_with (some a) now = if ltb now a.until then suc a.failures else 1

-- `login_attempt(identity)`
unfoldable pub login_locked : String → ℕ → Database → Bool
login_locked identity now db = is_locked (Dict.get identity db.attempts) now

-- `login_attempt(identity, False)`, which reads the clock twice.
unfoldable pub login_failed : String → ℕ → ℕ → Database → Database
login_failed identity now later db = record db {
  attempts =
      Dict.put identity
        (record {
          failures = failures_with (Dict.get identity db.attempts) now;
          until = later + 60 * second;
        })
        db.attempts;
}

-- `login_attempt(identity, True)`
unfoldable pub login_succeeded : String → Database → Database
login_succeeded identity db = record db { attempts = delete_attempts identity db.attempts }

-- `get` and `set`
unfoldable pub get_setting : String → Database → Option String
get_setting key db = Dict.get key db.settings

unfoldable pub set_setting : String → String → Database → Database
set_setting key value db = record db { settings = Dict.put key value db.settings }

-- `INSERT INTO events`, whose identifiers are never used again.
unfoldable pub insert_event : String → Database → Database
insert_event payload db = record db {
  events = record { id = db.next_event; payload = payload } ∷ db.events;
  next_event = suc db.next_event;
}

-- `add_event`: the identifier comes back with the event.
unfoldable pub add_event : String → Database → ℕ × Database
add_event payload db = (db.next_event, insert_event payload db)

unfoldable pub insert_events : List String → Database → Database
insert_events [] db = db
insert_events (p ∷ ps) db = insert_events ps (insert_event p db)

-- `ingest_events`: the events and the spool's cursor in one transaction.
unfoldable pub ingest_events : List String → String → Database → Database
ingest_events payloads cursor db =
    set_setting "event_spool_cursor" cursor (insert_events payloads db)

unfoldable pub replace_payload : ℕ → String → List EventRow → List EventRow
replace_payload id payload [] = []
replace_payload id payload (r ∷ rs) =
    (if leb r.id id && leb id r.id then record r { payload = payload } else r)
    ∷ replace_payload id payload rs

-- `update_event`
unfoldable pub update_event : ℕ → String → Database → Database
update_event id payload db = record db { events = replace_payload id payload db.events }

unfoldable pub take {ℓ} : {A : Type ℓ} → ℕ → List A → List A
take ℕ.zero xs = []
take (suc n) [] = []
take (suc n) (x ∷ xs) = x ∷ take n xs

-- `events` and `audits`: the last rows, the last one first.
unfoldable pub events : Database → List EventRow
events db = take 2000 db.events

unfoldable pub audits : Database → List AuditRow
audits db = take 1000 db.audit_rows

-- `save_policy`: the setting and its audit in one transaction.
unfoldable pub save_policy : String → String → ℕ → Database → Database
save_policy policy summary now db =
    audit "policy.applied" summary "system" now (set_setting "policy" policy db)
