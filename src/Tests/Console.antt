-- ===== src/Tests/Console.antt =====
-- The console's theorems at concrete inputs.
use ai_security_gateway.Base.{
  ℕ, ◌+◌, ◌*◌, ◌≡◌, refl, true, none, some, List, [], ◌∷◌, arith, ltb, if◌then◌else◌,
}
use ai_security_gateway.Console.Store.{
  principal_or_admin, admin, Hashes, Database, second, min, change_password, create_session,
  has_session, delete_expired, principal, login_locked,
}
use ai_security_gateway.Console.Store.Sessions.{
  Changes, change_password-Changes, create_session-principal,
}
use ai_security_gateway.Console.Store.Lockout.{fails, login_locked-fails}
use ai_security_gateway.Console.Store.Events.{
  Write, adds, ingests, updates, writes, view, journal, replace_at, IsNumbered, writes-journal,
}

abbrev hashes : Hashes
hashes = record { password_hash = λ p s. p; sha256_hex = λ t. t }

abbrev fresh : Database
fresh = record {
  account = record { salt = "00"; password_hash = "secret"; changed = true };
  sessions = [];
  attempts = [];
  settings = [];
  events = [];
  next_event = 1;
  audit_rows = [];
  next_audit = 1;
}

change_password-Changes_example :
    Changes hashes "secret" "better" fresh (change_password hashes "secret" "better" "01" 5 fresh)
change_password-Changes_example = change_password-Changes hashes "secret" "better" "01" 5 fresh

create_session-principal_example :
    principal hashes "token" 3 (create_session hashes (some "operator") 60 "token" 1 2 fresh).1
    ≡ (if ltb 3 (2 + min 60 28800 * second) then some "operator" else none)
unfolding create_session has_session delete_expired principal_or_admin
create_session-principal_example =
    create_session-principal hashes (some "operator") 60 "token" 1 2 fresh
      (create_session hashes (some "operator") 60 "token" 1 2 fresh).1 refl refl refl 3

-- An empty dict is replaced by the administrator.
nobody_is_admin : principal_or_admin (some "{}") ≡ admin
unfolding principal_or_admin
nobody_is_admin = refl

abbrev more_fails : List (ℕ × ℕ)
more_fails = (11, 11) ∷ (12, 12) ∷ (13, 13) ∷ (14, 15) ∷ []

login_locked-fails_example :
    login_locked "10.0.0.1" 20 (fails "10.0.0.1" ((10, 10) ∷ more_fails) fresh) ≡ true
login_locked-fails_example =
    login_locked-fails "10.0.0.1" 10 10 more_fails fresh 20 (omega arith) (omega arith)
      (omega arith)

abbrev some_writes : List Write
some_writes = adds "a" ∷ ingests ("b" ∷ "c" ∷ []) "{}" ∷ updates 2 "d" ∷ []

writes-journal_example :
    (view (writes some_writes fresh) ≡ journal some_writes (view fresh))
    × IsNumbered (writes some_writes fresh)
writes-journal_example = writes-journal some_writes fresh refl

journal_entries : (journal some_writes (view fresh)).entries ≡ "a" ∷ "d" ∷ "c" ∷ []
unfolding journal replace_at
journal_entries = refl
